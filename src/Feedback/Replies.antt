-- ===== src/Feedback/Replies.antt =====
-- What `Reply` of internal/modules/feedback/service.go stores.
use pocket_mvp_backend.Prelude.{
  ℕ, ◌≡◌, ◌≤◌, subst, false, Bool-cases, Option-cases, some, inl, inr, String, find, find-fits,
  find-update_where, arith, if◌then◌else◌, ◌==◌, ltb,
}
use pocket_mvp_backend.Platform.{Env}
use pocket_mvp_backend.Schema.{ReviewRow}
use pocket_mvp_backend.Effects.{
  State, ok, ◌>>=◌, fail_if, uuid_arg, statement, storable_text, external, on_error,
}
use pocket_mvp_backend.Effects.Rules.{Result-cases}
use pocket_mvp_backend.GoText.{trim_space, rune_count}
use pocket_mvp_backend.Access.{require_owner}
use pocket_mvp_backend.Access.Owner.{require_owner-ReadsOnly}
use pocket_mvp_backend.Feedback.{
  Review, unfit_reply, is_review, set_reply, scan_review, update_review_row, reply_to_review,
}

keeps_key :
    (now : ℕ) (owner reply id venue : String) (r : ReviewRow)
    → is_review id venue (if is_review id venue r then set_reply now owner reply r else r)
      ≡ is_review id venue r
keeps_key now owner reply id venue r = elim (Bool-cases (is_review id venue r)) [
  | inl hit ↦ ground arith
  | inr miss ↦ ground arith
]

-- A reply that is accepted is, its outer spaces trimmed, of 1 to 2000 characters; it answers a
-- review of this venue, whose row now has that reply, the owner and the time, and is otherwise what
-- it was; and the returned review is that row.
pub reply_to_review-stores :
    (owner venue review text u v i : String) (e : Env) (s : State) (result : Review)
    → e.parse_uuid owner ≡ some u
    → e.parse_uuid venue ≡ some v
    → e.parse_uuid review ≡ some i
    → (reply_to_review owner venue review text e s).0 ≡ ok result
    → ((trim_space text == "") ≡ false)
      × (rune_count (trim_space text) ≤ 2000)
      × (row : ReviewRow) × (find (is_review i v) s.db.reviews ≡ some row)
      × (find (is_review i v) (reply_to_review owner venue review text e s).1.db.reviews
          ≡ some (set_reply e.db_now u (trim_space text) row))
      × (result ≡ scan_review s.db (set_reply e.db_now u (trim_space text) row))
unfolding reply_to_review ◌>>=◌ fail_if uuid_arg statement storable_text external on_error
    update_review_row unfit_reply
reply_to_review-stores owner venue review text u v i e s result hu hv hi h =
    let s₁ = (require_owner owner venue e s).1 in
    let same = (require_owner-ReadsOnly owner venue).keeps e s in
    let reply = trim_space text in
    let set = set_reply e.db_now u reply in
    elim (Result-cases (require_owner owner venue e s).0) [
      | inr (x, refused) ↦ absurd (ground arith)
      | inl (o, owns) ↦ elim (Bool-cases (reply == "")) [
        | inl empty ↦ absurd (ground arith)
        | inr some_text ↦ elim (Bool-cases (ltb 2000 (rune_count reply))) [
          | inl long ↦ absurd (ground arith)
          | inr short ↦ elim (Option-cases (find (is_review i v) s₁.db.reviews)) [
            | inl missing ↦ absurd (ground arith)
            | inr (row, found) ↦
                let fits = find-fits (is_review i v) s₁.db.reviews row found in
                let unmoved = λ (r : ReviewRow). keeps_key e.db_now u reply i v r in
                let next =
                  find-update_where (is_review i v) (is_review i v) set unmoved s₁.db.reviews row
                    found in
                (
                  some_text,
                  ground arith,
                  row,
                  subst (λ d. find (is_review i v) d.reviews ≡ some row) same found,
                  ground arith,
                  subst (λ d. result ≡ scan_review d (set row)) same (ground arith),
                )
          ]
        ]
      ]
    ]
