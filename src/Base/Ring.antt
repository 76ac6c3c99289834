-- ===== src/Base/Ring.antt =====
-- A circular buffer of a fixed number of slots holds the end of the sequence that was written to it.
use hali_client.Base.{
  ℕ, zero, suc, ◌+◌, ◌%◌, ◌≤◌, ◌<◌, ◌≡◌, ◌≢◌, sym, ◌∙◌, arith, List, [], ◌∷◌, ◌++◌, length, get_or,
  set, drop, drop_all, length-append, length-set, get_or-set_self, get_or-set_ne,
  get_or-append_left, get_or-append_last, drop-get_or, Bool-cases, inl, inr, ltb,
}

-- `k` slots from the position `start` on, where the slot of a position is its remainder by `n`.
unfoldable pub read_ring {ℓ} : {A : Type ℓ} → ℕ → A → List A → ℕ → ℕ → List A
read_ring n d buf start zero = []
read_ring n d buf start (suc k) = get_or buf (start % n) d ∷ read_ring n d buf (start + 1) k

-- Positions less than `n` apart have slots of their own.
pub record IsRing (n : ℕ) : Type 0 where
  pub slot_lt : (j : ℕ) → j % n < n
  pub slots_ne : (i j : ℕ) → i < j → j < i + n → j % n ≢ i % n

pub record IsWindow {ℓ} {A : Type ℓ} (n : ℕ) (d : A) (buf hist : List A) : Type ℓ where
  pub full : length buf ≡ n
  pub at : (i : ℕ) → i < length hist → length hist ≤ i + n → get_or buf (i % n) d ≡ get_or hist i d

module _ {ℓ} {A : Type ℓ} (n : ℕ) (ring : IsRing n) (d : A) where
  pub set-IsWindow :
      (buf hist : List A) (e : A)
      → IsWindow n d buf hist
      → IsWindow n d (set buf (length hist % n) e) (hist ++ e ∷ [])
  set-IsWindow buf hist e w = record {
    full = length-set buf (length hist % n) e ∙ w.full;
    at = λ i inside recent.
        let more = length-append hist (e ∷ []) in
        elim (Bool-cases (ltb i (length hist))) [
          | inl old ↦
              let lt : i < length hist = ground arith in
              get_or-set_ne buf (length hist % n) (i % n) e d
                (ring.slots_ne i (length hist) lt (omega arith))
              ∙ w.at i lt (omega arith)
              ∙ sym (get_or-append_left hist (e ∷ []) i d lt)
          | inr new ↦
              let last : i ≡ length hist = ground arith in
              rw last (
                get_or-set_self buf (length hist % n) e d (rw w.full (ring.slot_lt (length hist)))
                ∙ sym (get_or-append_last hist e d))
        ];
  }

  -- The slots up to the last position are the end of the sequence.
  pub read_ring-drop :
      (k start : ℕ) (buf hist : List A)
      → IsWindow n d buf hist
      → start + k ≡ length hist
      → k ≤ n
      → read_ring n d buf start k ≡ drop start hist
  unfolding read_ring
  read_ring-drop zero start buf hist w e b = sym (drop_all hist start (omega arith))
  read_ring-drop (suc k) start buf hist w e b =
      let lt : start < length hist = omega arith in
      (λ i.
        w.at start lt (omega arith) i
        ∷ read_ring-drop k (start + 1) buf hist w (omega arith) (omega arith) i)
      ∙ sym (drop-get_or hist start d lt)
