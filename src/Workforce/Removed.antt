-- ===== src/Workforce/Removed.antt =====
-- Staff that were removed, and changes of the staff by others than the owner.
use pocket_mvp_backend.Prelude.{
  ◌≡◌, refl, sym, ◌∙◌, subst, Option, Option-cases, some, inl, inr, String, List, find,
  update_where, find-update_where, arith, if◌then◌else◌, ◌==◌,
}
use pocket_mvp_backend.Faults.{Error}
use pocket_mvp_backend.Platform.{Env}
use pocket_mvp_backend.Schema.{StaffRow, StaffStatus, Database}
use pocket_mvp_backend.Effects.{
  State, err, ◌>>=◌, fail_if, or_fail, uuid_arg, statement, external, on_error,
}
use pocket_mvp_backend.Effects.Rules.{Result-cases}
use pocket_mvp_backend.Access.{require_owner}
use pocket_mvp_backend.Access.Owner.{Refused, Refused-bind, require_owner-ReadsOnly}
use pocket_mvp_backend.Workforce.{
  StaffInput, is_staff, set_staff, remove, create_staff, update_staff_row, update_staff,
  remove_staff_row, delete_staff, staff_status,
}

-- Every change of a venue's staff first asks `RequireOwner`: what that refuses, the operation refuses
-- with the same error, and the database is as it was.
pub staff_changes-Refused :
    (owner venue id : String) (c u : StaffInput) (e : Env) (s : State) (x : Error)
    → (require_owner owner venue e s).0 ≡ err x
    → Refused (create_staff owner venue c) e s x
      × Refused (update_staff owner venue id u) e s x
      × Refused (delete_staff owner venue id) e s x
unfolding create_staff update_staff delete_staff
staff_changes-Refused owner venue id c u e s x h = (
  Refused-bind owner venue _ e s x h,
  Refused-bind owner venue _ e s x h,
  Refused-bind owner venue _ e s x h,
)

-- The row that an id finds.
abbrev pub row_of : String → Database → Option StaffRow
row_of id db = find (λ r. r.id == id) db.staff

module _ (id : String) (r : StaffRow) (gone : r.status ≡ StaffStatus.removed) where
  update_keeps :
      (other venue : String) (f : StaffRow → StaffRow) (rows : List StaffRow)
      → ((x : StaffRow) → (f x).id ≡ x.id)
      → find (λ r. r.id == id) rows ≡ some r
      → find (λ r. r.id == id) (update_where (is_staff other venue) f rows) ≡ some r
  update_keeps other venue f rows same h =
      find-update_where (is_staff other venue) (λ r. r.id == id) f (λ x. unmoved x) rows r h
      ∙ ground arith
    where
      unmoved :
          (x : StaffRow) → ((if is_staff other venue x then f x else x).id == id) ≡ (x.id == id)
      unmoved x = let k = same x in ground arith

  delete_keeps :
      (owner venue other : String) (e : Env) (s : State)
      → row_of id s.db ≡ some r
      → row_of id (delete_staff owner venue other e s).1.db ≡ some r
  unfolding delete_staff ◌>>=◌ uuid_arg statement external remove_staff_row fail_if
  delete_keeps owner venue other e s h =
      let s₁ = (require_owner owner venue e s).1 in
      let same = (require_owner-ReadsOnly owner venue).keeps e s in
      let here = subst (λ d. row_of id d ≡ some r) (sym same) h in
      elim (Result-cases (require_owner owner venue e s).0) [
        | inr (x, refused) ↦ ground arith
        | inl (u, owns) ↦ elim (Option-cases (e.parse_uuid venue)) [
          | inl bad ↦ ground arith
          | inr (v, parsed) ↦ elim (Option-cases (e.parse_uuid other)) [
            | inl bad ↦ ground arith
            | inr (i, known) ↦
                let kept = update_keeps i v (remove e.db_now) s₁.db.staff (λ x. refl) here in
                ground arith
          ]
        ]
      ]

  update_staff_keeps :
      (owner venue other : String) (input : StaffInput) (e : Env) (s : State)
      → row_of id s.db ≡ some r
      → row_of id (update_staff owner venue other input e s).1.db ≡ some r
  unfolding update_staff ◌>>=◌ uuid_arg statement external update_staff_row fail_if or_fail on_error
  update_staff_keeps owner venue other input e s h =
      let s₁ = (require_owner owner venue e s).1 in
      let same = (require_owner-ReadsOnly owner venue).keeps e s in
      let here = subst (λ d. row_of id d ≡ some r) (sym same) h in
      elim (Result-cases (require_owner owner venue e s).0) [
        | inr (x, refused) ↦ ground arith
        | inl (u, owns) ↦ elim (Option-cases (e.parse_uuid venue)) [
          | inl bad ↦ ground arith
          | inr (v, parsed) ↦ elim (Option-cases (e.parse_uuid other)) [
            | inl bad ↦ ground arith
            | inr (i, known) ↦ elim (Option-cases (staff_status input.status)) [
              | inl unknown ↦ ground arith
              | inr (status, named) ↦
                  let kept =
                    update_keeps i v (set_staff input.role status) s₁.db.staff (λ x. refl) here in
                  ground arith
            ]
          ]
        ]
      ]

-- A staff member who was removed stays removed: if an id finds a removed row, it finds the same row
-- after any update or deletion in the staff of any venue, by whomever and however it ends.
pub removed_is_final :
    (id owner venue other : String) (input : StaffInput) (r : StaffRow) (e : Env) (s : State)
    → r.status ≡ StaffStatus.removed
    → row_of id s.db ≡ some r
    → (row_of id (update_staff owner venue other input e s).1.db ≡ some r)
      × (row_of id (delete_staff owner venue other e s).1.db ≡ some r)
removed_is_final id owner venue other input r e s gone h = (
  update_staff_keeps id r gone owner venue other input e s h,
  delete_keeps id r gone owner venue other e s h,
)
