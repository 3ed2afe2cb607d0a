-- ===== src/Proto/Concepts/Rows.antt =====
-- Rows of concepts from messages (rust/src/connection/network/proto/concept.rs).
use typedb_driver.Common.{◌≡◌, refl, Bool, Option, List, [], ◌∷◌, Bytes, ok, >>=-eq-ok, ◌↔◌}
use typedb_driver.Concept.{External, Concept}
use typedb_driver.Proto.{Chrono, Entry, ConceptRowProto}
use typedb_driver.Proto.Concepts.{entry_try_from_proto, entries_try_from_proto, row_try_from_proto}

module _ (A : Type 0) {X : External} (chrono : Chrono X) (checks : Bool) where
  -- A row is converted entry by entry: as many concepts as entries, each from the entry at its place.
  abbrev pub IsConverted : List (Option (Entry X)) → List (Option (Concept X)) → Type 0
  IsConverted [] [] = Unit
  IsConverted (x ∷ l) (c ∷ k) =
      (entry_try_from_proto {A = A} chrono checks x ≡ ok c) × IsConverted l k
  IsConverted _ _ = ⊥

  entries-IsConverted :
      (l : List (Option (Entry X))) (k : List (Option (Concept X)))
      → (entries_try_from_proto {A = A} chrono checks l ≡ ok k) ↔ IsConverted l k
  unfolding entries_try_from_proto
  entries-IsConverted [] [] = (λ h. tt, λ h. refl)
  entries-IsConverted [] (c ∷ k) = (λ h. cc, λ h. absurd h)
  entries-IsConverted (x ∷ l) [] = (
    λ h.
        (let (c, given, rest) = >>=-eq-ok (entry_try_from_proto {A = A} chrono checks x) _ h in
          let (k, converted, more) =
            >>=-eq-ok (entries_try_from_proto {A = A} chrono checks l) _ rest in
          cc),
    λ h. absurd h,
  )
  entries-IsConverted (x ∷ l) (c ∷ k) = (
    λ h.
        (let (d, given, rest) = >>=-eq-ok (entry_try_from_proto {A = A} chrono checks x) _ h in
          let (j, converted, more) =
            >>=-eq-ok (entries_try_from_proto {A = A} chrono checks l) _ rest in
          let same_entry : d ≡ c = cc in
          let same_rest : j ≡ k = cc in
          (rw same_entry at given, (entries-IsConverted l k).0 (rw same_rest at converted))),
    λ h. rw (h.0, (entries-IsConverted l k).1 h.1) refl,
  )

  -- A row is converted exactly if each of its entries is: the row has a concept or nothing for each entry,
  -- the one that the entry is converted to, and it keeps the involved blocks.
  pub row_try_from_proto-IsConverted :
      (proto : ConceptRowProto X) (k : List (Option (Concept X))) (b : Option Bytes)
      → (row_try_from_proto {A = A} chrono checks proto ≡ ok (k, b))
        ↔ (IsConverted proto.row k × (proto.involved_blocks ≡ b))
  unfolding row_try_from_proto
  row_try_from_proto-IsConverted proto k b = (
    λ h.
        (let (j, converted, same) =
            >>=-eq-ok (entries_try_from_proto {A = A} chrono checks proto.row) _ h in
          let same_row : j ≡ k = cc in
          let same_blocks : proto.involved_blocks ≡ b = cc in
          ((entries-IsConverted proto.row k).0 (rw same_row at converted), same_blocks)),
    λ h. rw ((entries-IsConverted proto.row k).1 h.0, h.1) refl,
  )
