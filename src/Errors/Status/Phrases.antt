-- ===== src/Errors/Status/Phrases.antt =====
-- Phrases of a text, and texts that are one of several (rust/src/common/error.rs).
use typedb_driver.Common.{
  ◌≡◌, refl, ap, ◌⊎◌, inl, inr, Bool, true, false, List, [], ◌∷◌, ◌++◌, if◌then◌else◌, Bytes, codes,
  ◌=?◌, nat_eq, bytes_eq, Bool-cases, append-nil, arith,
}
use typedb_driver.Errors.Status.{
  starts_with, has_text, Status, append_sources, concat_source_messages, one_of,
}
use typedb_driver.Errors.Status.Causes.{IsOneOf, IsPhrase, join, full_text}

append_sources-join :
    (x : Bytes) (l : List Bytes) → x ++ append_sources l ≡ join (codes ": ") (x ∷ l)
unfolding append_sources
append_sources-join x [] = append-nil x
append_sources-join x (y ∷ l) = ap (λ t. x ++ (codes ": " ++ t)) (append_sources-join y l)

pub concat_source_messages-full_text : (s : Status) → concat_source_messages s ≡ full_text s
unfolding concat_source_messages
concat_source_messages-full_text s = append_sources-join s.message s.sources

starts_with-IsPrefix : (p s : Bytes) → starts_with p s ≡ true → (after : Bytes) × (s ≡ p ++ after)
unfolding starts_with
starts_with-IsPrefix [] s h = (s, refl)
starts_with-IsPrefix (x ∷ p) [] h = cc
starts_with-IsPrefix (x ∷ p) (y ∷ s) h = elim (Bool-cases (x =? y)) [
  | inr differs ↦ (let stuck = rw (differs) at h in cc)
  | inl same ↦
      (let (after, rest) = starts_with-IsPrefix p s (rw (same) at h) in
        let equal : x ≡ y = (nat_eq.beq_iff x y).0 same in (after, rw (equal, rest) refl))
]

pub has_text-IsPhrase : (p s : Bytes) → has_text p s ≡ true → IsPhrase p s
unfolding has_text
has_text-IsPhrase p [] h = (let (after, same) = starts_with-IsPrefix p [] h in ([], after, same))
has_text-IsPhrase p (y ∷ s) h = elim (Bool-cases (starts_with p (y ∷ s))) [
  | inl here ↦ (let (after, same) = starts_with-IsPrefix p (y ∷ s) here in ([], after, same))
  | inr there ↦
      (let (before, after, same) = has_text-IsPhrase p s (rw (there, has_text) at h) in
        (y ∷ before, after, ap (λ t. y ∷ t) same))
]

pub one_of-IsOneOf : (l : List Bytes) (s : Bytes) → one_of l s ≡ true → IsOneOf l s
one_of-IsOneOf [] s h = cc
one_of-IsOneOf (x ∷ l) s h = elim (Bool-cases (x =? s)) [
  | inl same ↦ inl ((bytes_eq.beq_iff x s).0 same)
  | inr differs ↦ inr (one_of-IsOneOf l s (rw (differs) at h))
]

IsOneOf-one_of : (l : List Bytes) (s : Bytes) → IsOneOf l s → one_of l s ≡ true
IsOneOf-one_of [] s never = absurd never
IsOneOf-one_of (x ∷ l) s (inl same) = rw ((bytes_eq.beq_iff x s).1 same) refl
IsOneOf-one_of (x ∷ l) s (inr rest) = rw (IsOneOf-one_of l s rest) (ground arith)

pub IsOneOf-append : (k l : List Bytes) (s : Bytes) → IsOneOf (k ++ l) s → IsOneOf k s ⊎ IsOneOf l s
IsOneOf-append [] l s h = inr h
IsOneOf-append (x ∷ k) l s (inl same) = inl (inl same)
IsOneOf-append (x ∷ k) l s (inr rest) = elim (IsOneOf-append k l s rest) [
  | inl first ↦ inl (inr first)
  | inr second ↦ inr second
]

-- A property of a test's branches.
pub branches :
    {B : Type 0} (P : B → Type 0) (b : Bool) (x y : B)
    → (b ≡ true → P x)
    → (b ≡ false → P y)
    → P (if b then x else y)
branches P true x y f g = f refl
branches P false x y f g = g refl

pub not_one_of : (l : List Bytes) (s : Bytes) → one_of l s ≡ false → IsOneOf l s → ⊥
not_one_of l s h found = (let is = IsOneOf-one_of l s found in cc)
