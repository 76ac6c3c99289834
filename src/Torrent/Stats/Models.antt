-- ===== src/Torrent/Stats/Models.antt =====
-- What a sample does to the tables of the models.
use hali_client.Base.{
  ℕ, ◌≡◌, refl, sym, ap, ◌∙◌, subst, Bool, true, false, List, [], ◌∷◌, Str, str_eq, str_eq_iff,
  Option, none, some, lookup, lookup-insert, if◌then◌else◌, not, ◌&&◌, Bool-cases, inl, inr,
}
use hali_client.Base.Int.{ℤ, ◌-ℤ◌}
use hali_client.Torrent.Stats.{
  EngineModelState, Collector, at_least_zero, or_zero, speed_since, sample_model, sample_models,
  is_active, sample,
}
use hali_client.Torrent.Stats.Lookups.{
  has, IsAligned, find_model, DistinctIds, found_or, find_model-inactive, has_key, has_key-lookup,
  if-same, found_or-if, lookup-forget_gone,
}
use hali_client.Torrent.Stats.Rates.{IsRate, counter, or_zero-counter, speed_since-IsRate}

-- The speeds of a model, by the cumulative counters of the last sample.
abbrev speeds_by : (ℤ → ℕ → ℤ) → Option ℕ → ℕ → Option ℤ → Option ℤ → EngineModelState → ℤ × ℤ
speeds_by rate last now down up m = (
  speed_since rate last now (at_least_zero (m.down -ℤ or_zero down)),
  speed_since rate last now (at_least_zero (m.up -ℤ or_zero up)),
)

module _ (rate : ℤ → ℕ → ℤ) (last : Option ℕ) (now : ℕ) (id : Str) where
  abbrev speeds_of : Collector → EngineModelState → ℤ × ℤ
  speeds_of c = speeds_by rate last now (lookup id c.prev_cum_down) (lookup id c.prev_cum_up)

  lookup-sample_model :
      (m : EngineModelState) (c : Collector)
      → (lookup id (sample_model rate last now c m).model_speeds
          ≡ (if str_eq m.model_id id then some (speeds_of c m) else lookup id c.model_speeds))
        × (lookup id (sample_model rate last now c m).prev_cum_down
            ≡ (if str_eq m.model_id id then some m.down else lookup id c.prev_cum_down))
        × (lookup id (sample_model rate last now c m).prev_cum_up
            ≡ (if str_eq m.model_id id then some m.up else lookup id c.prev_cum_up))
  unfolding sample_model
  lookup-sample_model m c =
      let of : Str → ℤ × ℤ =
        λ j. speeds_by rate last now (lookup j c.prev_cum_down) (lookup j c.prev_cum_up) m in
      (
        lookup-insert m.model_id id (of m.model_id) c.model_speeds
            ∙ if-same (str_eq m.model_id id) (of m.model_id) (of id) (lookup id c.model_speeds)
                (λ e. ap of ((str_eq_iff m.model_id id).0 e)),
        lookup-insert m.model_id id m.down c.prev_cum_down,
        lookup-insert m.model_id id m.up c.prev_cum_up,
      )

  lookup-sample_models :
      (ms : List EngineModelState) (c : Collector)
      → DistinctIds ms
      → (lookup id (sample_models rate last now c ms).model_speeds
          ≡ found_or (find_model id ms) (speeds_of c) (lookup id c.model_speeds))
        × (lookup id (sample_models rate last now c ms).prev_cum_down
            ≡ found_or (find_model id ms) (λ m. m.down) (lookup id c.prev_cum_down))
        × (lookup id (sample_models rate last now c ms).prev_cum_up
            ≡ found_or (find_model id ms) (λ m. m.up) (lookup id c.prev_cum_up))
  unfolding sample_models
  lookup-sample_models [] c u = (refl, refl, refl)
  lookup-sample_models (m ∷ ms) c (fresh, u) =
      let (s, dn, up) = lookup-sample_models ms (sample_model rate last now c m) u in
      let (s1, dn1, up1) = lookup-sample_model m c in
      let b = str_eq m.model_id id in
      let found = find_model id ms in
      let alone : b ≡ true → found ≡ none = λ e.
        find_model-inactive id ms
          (subst (λ j. is_active j ms ≡ false) ((str_eq_iff m.model_id id).0 e) fresh) in
      let speeds : b ≡ false → speeds_of (sample_model rate last now c m) ≡ speeds_of c =
        λ e i. speeds_by rate last now (rw e at dn1 i) (rw e at up1 i) in
      (
        s
            ∙ ap (found_or found (speeds_of (sample_model rate last now c m))) s1
            ∙ found_or-if b found m (speeds_of (sample_model rate last now c m)) (speeds_of c)
                (lookup id c.model_speeds) alone speeds,
        dn
            ∙ ap (found_or found (λ m. m.down)) dn1
            ∙ found_or-if b found m (λ m. m.down) (λ m. m.down) (lookup id c.prev_cum_down) alone
                (λ e. refl),
        up
            ∙ ap (found_or found (λ m. m.up)) up1
            ∙ found_or-if b found m (λ m. m.up) (λ m. m.up) (lookup id c.prev_cum_up) alone
                (λ e. refl),
      )

find_model-active :
    (id : Str) (ms : List EngineModelState) → is_active id ms ≡ has (find_model id ms)
unfolding is_active
find_model-active id [] = refl
find_model-active id (m ∷ ms) = elim (Bool-cases (str_eq m.model_id id)) [
  | inl e ↦ rw e refl
  | inr e ↦ rw e (find_model-active id ms)
]

has-none {ℓ} : {A : Type ℓ} (o : Option A) → has o ≡ false → o ≡ none
has-none none h = refl
has-none (some a) h = cc h

kept {ℓ} :
    {B : Type ℓ} (found : Option EngineModelState) (key : Bool) (f : EngineModelState → B)
    (old new : Option B)
    → new ≡ found_or found f old
    → (key ≡ false → found ≡ none → old ≡ none)
    → (if not (has found) && key then none else new) ≡ found_or found f none
kept (some m) key f old new e k = e
kept none true f old new e k = refl
kept none false f old new e k = e ∙ k refl refl

has-found_or {ℓ κ} :
    {A : Type ℓ} {B : Type κ} (found : Option EngineModelState) (f : EngineModelState → A)
    (g : EngineModelState → B)
    → has (found_or found f none) ≡ has (found_or found g none)
has-found_or none f g = refl
has-found_or (some m) f g = refl

module _ (rate : ℤ → ℕ → ℤ) (down up : ℤ) (now recorded : ℕ) where
  lookup-sample :
      (c : Collector) (ms : List EngineModelState) (id : Str)
      → IsAligned c
      → DistinctIds ms
      → (lookup id (sample rate c ms down up now recorded).model_speeds
          ≡ found_or (find_model id ms) (speeds_of rate c.last_sample now id c) none)
        × (lookup id (sample rate c ms down up now recorded).prev_cum_down
            ≡ found_or (find_model id ms) (λ m. m.down) none)
        × (lookup id (sample rate c ms down up now recorded).prev_cum_up
            ≡ found_or (find_model id ms) (λ m. m.up) none)
  unfolding sample
  lookup-sample c ms id h u =
      let sampled = sample_models rate c.last_sample now c ms in
      let found = find_model id ms in
      let key = has_key id sampled.model_speeds in
      let (s, dn, up) = lookup-sample_models rate c.last_sample now id ms c u in
      let (s1, dn1, up1) = lookup-forget_gone ms id sampled.model_speeds sampled in
      let old : key ≡ false → found ≡ none → lookup id c.model_speeds ≡ none =
        λ k n. rw (has_key-lookup id sampled.model_speeds k, n) at (sym s) in
      let active = find_model-active id ms in
      let gone_down : key ≡ false → found ≡ none → lookup id c.prev_cum_down ≡ none =
        λ k n. has-none (lookup id c.prev_cum_down) (h.downs id ∙ ap has (old k n)) in
      let gone_up : key ≡ false → found ≡ none → lookup id c.prev_cum_up ≡ none =
        λ k n. has-none (lookup id c.prev_cum_up) (h.ups id ∙ ap has (old k n)) in
      (
        s1
            ∙ ap (λ b. if not b && key then none else lookup id sampled.model_speeds) active
            ∙ kept found key (speeds_of rate c.last_sample now id c) (lookup id c.model_speeds)
                (lookup id sampled.model_speeds) s old,
        dn1
            ∙ ap (λ b. if not b && key then none else lookup id sampled.prev_cum_down) active
            ∙ kept found key (λ m. m.down) (lookup id c.prev_cum_down)
                (lookup id sampled.prev_cum_down) dn gone_down,
        up1
            ∙ ap (λ b. if not b && key then none else lookup id sampled.prev_cum_up) active
            ∙ kept found key (λ m. m.up) (lookup id c.prev_cum_up) (lookup id sampled.prev_cum_up)
                up gone_up,
      )

-- The speeds and counters of an id behind a sample, for the model of that id if there is one
abbrev pub IsSampled :
    (ℤ → ℕ → ℤ) → Collector → ℕ → Str → Option EngineModelState → Collector → Type 0
IsSampled rate c now id none after =
    (lookup id after.model_speeds ≡ none)
    × (lookup id after.prev_cum_down ≡ none)
    × (lookup id after.prev_cum_up ≡ none)
IsSampled rate c now id (some m) after =
    (speeds : ℤ × ℤ) × (lookup id after.model_speeds ≡ some speeds)
    × IsRate rate c.last_sample now (counter (lookup id c.prev_cum_down)) m.down speeds.0
    × IsRate rate c.last_sample now (counter (lookup id c.prev_cum_up)) m.up speeds.1
    × (lookup id after.prev_cum_down ≡ some m.down)
    × (lookup id after.prev_cum_up ≡ some m.up)

found-IsSampled :
    (rate : ℤ → ℕ → ℤ) (c : Collector) (now : ℕ) (id : Str) (found : Option EngineModelState)
    (after : Collector)
    → lookup id after.model_speeds ≡ found_or found (speeds_of rate c.last_sample now id c) none
    → lookup id after.prev_cum_down ≡ found_or found (λ m. m.down) none
    → lookup id after.prev_cum_up ≡ found_or found (λ m. m.up) none
    → IsSampled rate c now id found after
found-IsSampled rate c now id none after s d u = (s, d, u)
found-IsSampled rate c now id (some m) after s d u =
    let is_rate : (o : Option ℤ) (new : ℤ)
        → IsRate rate c.last_sample now (counter o) new
            (speed_since rate c.last_sample now (at_least_zero (new -ℤ or_zero o))) =
      λ o new.
        subst
          (λ old.
            IsRate rate c.last_sample now old new
              (speed_since rate c.last_sample now (at_least_zero (new -ℤ or_zero o))))
          (or_zero-counter o) (speed_since-IsRate rate c.last_sample now (or_zero o) new) in
    (
      speeds_of rate c.last_sample now id c m,
      s,
      is_rate (lookup id c.prev_cum_down) m.down,
      is_rate (lookup id c.prev_cum_up) m.up,
      d,
      u,
    )

-- A sample of the models with distinct ids, from tables that know of the same models, gives each
-- active model the rates since the last sample at which its counters grew: from zero for a model that
-- is new, the rate of no bytes where a counter fell, and zero where no time has passed or there was
-- no sample before. It keeps the model's counters and its own time for the next sample. Any other id
-- has no speed and no counter then, and the tables know of the same models again.
pub sample-model_speeds :
    (rate : ℤ → ℕ → ℤ) (c : Collector) (ms : List EngineModelState) (down up : ℤ) (now recorded : ℕ)
    (id : Str)
    → IsAligned c
    → DistinctIds ms
    → IsSampled rate c now id (find_model id ms) (sample rate c ms down up now recorded)
      × ((sample rate c ms down up now recorded).last_sample ≡ some now)
      × IsAligned (sample rate c ms down up now recorded)
sample-model_speeds rate c ms down up now recorded id h u =
    let after = sample rate c ms down up now recorded in
    let (s, d, p) = lookup-sample rate down up now recorded c ms id h u in
    (
      found-IsSampled rate c now id (find_model id ms) after s d p,
      unfold sample in refl,
      record {
        downs = λ j.
            ap has (lookup-sample rate down up now recorded c ms j h u).1
            ∙ has-found_or (find_model j ms) (λ m. m.down) (speeds_of rate c.last_sample now j c)
            ∙ ap has (sym (lookup-sample rate down up now recorded c ms j h u).0);
        ups = λ j.
            ap has (lookup-sample rate down up now recorded c ms j h u).2
            ∙ has-found_or (find_model j ms) (λ m. m.up) (speeds_of rate c.last_sample now j c)
            ∙ ap has (sym (lookup-sample rate down up now recorded c ms j h u).0);
      },
    )
