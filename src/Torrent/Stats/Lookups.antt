-- ===== src/Torrent/Stats/Lookups.antt =====
-- internal/torrent/stats_collector.go: the speeds and counters that the collector keeps by model, when
-- models come and go.
use hali_client.Base.{
  ◌≡◌, refl, ap, ◌∙◌, arith, Bool, true, false, ◌||◌, List, [], ◌∷◌, Str, str_eq, str_eq_iff,
  Option, none, some, Dict, lookup, lookup-delete, if◌then◌else◌, not, ◌&&◌, Bool-cases, inl, inr,
}
use hali_client.Base.Int.{ℤ}
use hali_client.Torrent.Stats.{EngineModelState, Collector, is_active, forget, forget_gone}

abbrev pub has {ℓ} : {A : Type ℓ} → Option A → Bool
has none = false
has (some a) = true

-- The tables know of the same models.
pub record IsAligned (c : Collector) : Type 0 where
  pub downs : (id : Str) → has (lookup id c.prev_cum_down) ≡ has (lookup id c.model_speeds)
  pub ups : (id : Str) → has (lookup id c.prev_cum_up) ≡ has (lookup id c.model_speeds)

abbrev pub find_model : Str → List EngineModelState → Option EngineModelState
find_model id [] = none
find_model id (m ∷ ms) = if str_eq m.model_id id then some m else find_model id ms

abbrev pub DistinctIds : List EngineModelState → Type 0
DistinctIds [] = Unit
DistinctIds (m ∷ ms) = (is_active m.model_id ms ≡ false) × DistinctIds ms

-- What a found model determines, and else the old value.
abbrev pub found_or {ℓ} :
    {B : Type ℓ} → Option EngineModelState → (EngineModelState → B) → Option B → Option B
found_or none f old = old
found_or (some m) f old = some (f m)

pub find_model-inactive :
    (id : Str) (ms : List EngineModelState) → is_active id ms ≡ false → find_model id ms ≡ none
unfolding is_active
find_model-inactive id [] h = refl
find_model-inactive id (m ∷ ms) h = ground (arith, find_model-inactive id ms)

-- A model whose id is a key of the table.
abbrev pub has_key : Str → Dict (ℤ × ℤ) → Bool
has_key id [] = false
has_key id ((k, v) ∷ d) = str_eq k id || has_key id d

pub has_key-lookup : (id : Str) (d : Dict (ℤ × ℤ)) → has_key id d ≡ false → lookup id d ≡ none
unfolding lookup
has_key-lookup id [] h = refl
has_key-lookup id ((k, v) ∷ d) h = ground (arith, has_key-lookup id d)

lookup-forget :
    (b : Bool) (k id : Str) (c : Collector)
    → (lookup id (forget b k c).model_speeds
        ≡ (if not b && str_eq k id then none else lookup id c.model_speeds))
      × (lookup id (forget b k c).prev_cum_down
          ≡ (if not b && str_eq k id then none else lookup id c.prev_cum_down))
      × (lookup id (forget b k c).prev_cum_up
          ≡ (if not b && str_eq k id then none else lookup id c.prev_cum_up))
lookup-forget true k id c = (refl, refl, refl)
lookup-forget false k id c = (
  lookup-delete k id c.model_speeds,
  lookup-delete k id c.prev_cum_down,
  lookup-delete k id c.prev_cum_up,
)

-- Two deletions of the loop, one after the other.
if-gone {ℓ} :
    {A : Type ℓ} (b g same active : Bool) (x : Option A)
    → (same ≡ true → b ≡ active)
    → (if not active && g then none else if not b && same then none else x)
      ≡ (if not active && (same || g) then none else x)
if-gone b true true true x h = rw (h refl) refl
if-gone b true true false x h = refl
if-gone true true false active x h = refl
if-gone false true false active x h = refl
if-gone b false true true x h = rw (h refl) refl
if-gone b false true false x h = rw (h refl) refl
if-gone true false false true x h = refl
if-gone true false false false x h = refl
if-gone false false false true x h = refl
if-gone false false false false x h = refl

module _ (ms : List EngineModelState) (id : Str) where
  -- Whether the loop over the keys deletes the id.
  abbrev gone : Dict (ℤ × ℤ) → Bool
  gone d = not (is_active id ms) && has_key id d

  pub lookup-forget_gone :
      (d : Dict (ℤ × ℤ)) (c : Collector)
      → (lookup id (forget_gone ms d c).model_speeds
          ≡ (if gone d then none else lookup id c.model_speeds))
        × (lookup id (forget_gone ms d c).prev_cum_down
            ≡ (if gone d then none else lookup id c.prev_cum_down))
        × (lookup id (forget_gone ms d c).prev_cum_up
            ≡ (if gone d then none else lookup id c.prev_cum_up))
  unfolding forget_gone
  lookup-forget_gone [] c = elim (Bool-cases (is_active id ms)) [
    | inl e ↦ rw e (refl, refl, refl)
    | inr e ↦ rw e (refl, refl, refl)
  ]
  lookup-forget_gone ((k, v) ∷ d) c =
      let same : str_eq k id ≡ true → is_active k ms ≡ is_active id ms =
        λ e. ap (λ j. is_active j ms) ((str_eq_iff k id).0 e) in
      let (s, dn, up) = lookup-forget_gone d (forget (is_active k ms) k c) in
      let (s1, dn1, up1) = lookup-forget (is_active k ms) k id c in
      (
        s
            ∙ ap (λ x. if gone d then none else x) s1
            ∙ if-gone (is_active k ms) (has_key id d) (str_eq k id) (is_active id ms)
                (lookup id c.model_speeds) same,
        dn
            ∙ ap (λ x. if gone d then none else x) dn1
            ∙ if-gone (is_active k ms) (has_key id d) (str_eq k id) (is_active id ms)
                (lookup id c.prev_cum_down) same,
        up
            ∙ ap (λ x. if gone d then none else x) up1
            ∙ if-gone (is_active k ms) (has_key id d) (str_eq k id) (is_active id ms)
                (lookup id c.prev_cum_up) same,
      )

pub if-same {ℓ} :
    {B : Type ℓ} (b : Bool) (v w : B) (x : Option B)
    → (b ≡ true → v ≡ w)
    → (if b then some v else x) ≡ (if b then some w else x)
if-same true v w x h = ap some (h refl)
if-same false v w x h = refl

pub found_or-if {ℓ} :
    {B : Type ℓ} (b : Bool) (found : Option EngineModelState) (m : EngineModelState)
    (g f : EngineModelState → B) (old : Option B)
    → (b ≡ true → found ≡ none)
    → (b ≡ false → g ≡ f)
    → found_or found g (if b then some (f m) else old)
      ≡ found_or (if b then some m else found) f old
found_or-if true none m g f old h k = refl
found_or-if true (some n) m g f old h k = cc (h refl)
found_or-if false found m g f old h k = ap (λ g. found_or found g old) (k refl)
