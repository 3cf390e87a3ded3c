-- ===== src/Deletion/Confirmation.antt =====
-- `confirm_operation` of deletion.py: what it accepts, and what a refusal leaves.
use lifeflow.Prelude.{
  ℕ, false, not, ◌≡◌, refl, ap, sym, String, some, arith, ◌==◌, nat_eq, string_eq, option_eq,
  if-cases, ◌||◌, ◌⊎◌, inl, inr,
}
use lifeflow.Deletion.Operation.{
  DataDeletionOperation, is_pending, is_running, is_terminal, expected_phrase,
}
use lifeflow.Deletion.Tables.{Tables}
use lifeflow.Deletion.Plans.{Plan, plan_of, plan_changed}
use lifeflow.Deletion.Lifecycle.{
  Store, DeletionError, preview_changed, Reply, replied, refused, confirmed, expired_at,
  confirm_row,
}

operation_or : DataDeletionOperation → Reply → DataDeletionOperation
operation_or default (replied o) = o
operation_or default (refused c) = default

error_or : DeletionError → Reply → DeletionError
error_or default (replied o) = default
error_or default (refused c) = c

refused-injective : (c c' : DeletionError) → refused c ≡ refused c' → c ≡ c'
unfolding error_or
refused-injective c c' h = ap (error_or c) h

module _ (digest : Plan → String) (audit_events : ℕ → ℕ) (now ttl user_id version : ℕ)
    (phrase : String) (o : DataDeletionOperation) (db : Store) where
  -- What an accepted confirmation of a preview has checked, when the fingerprint was made of `t`.
  pub record IsBound (t : Tables) (o' : DataDeletionOperation) : Type 0 where
    pub outcome : o' ≡ confirmed o
    pub in_time : expired_at now o.preview_expires_at ≡ false
    pub reviewed : o.version ≡ version
    pub typed : expected_phrase o.typed_confirmation_kind ≡ some phrase
    pub unchanged : plan_of o t ≡ plan_of o db.tables

  abbrev Accepted : Tables → Reply × Store → Type 0
  Accepted t s = (o' : DataDeletionOperation) → s.0 ≡ replied o' → IsBound t o'

  abbrev Unspoilt : Reply × Store → Type 0
  Unspoilt s = (c : DeletionError) → s.0 ≡ refused c → (s.1 ≡ db) ⊎ (c ≡ preview_changed)

  -- A confirmation that is refused changes nothing, unless it is refused because the plan has changed.
  pub confirm_row-Unspoilt :
      (c : DeletionError)
      → let s = confirm_row digest audit_events now ttl user_id version phrase o db in
        s.0 ≡ refused c → (s.1 ≡ db) ⊎ (c ≡ preview_changed)
  unfolding confirm_row
  confirm_row-Unspoilt c =
      let unspoilt : Unspoilt
          (confirm_row digest audit_events now ttl user_id version phrase o db) =
        if-cases Unspoilt (is_pending o.state || is_running o.state) (λ _ c h. inl refl)
          λ _.
            if-cases Unspoilt (is_terminal o.state) (λ _ c h. inl refl)
              λ _.
                if-cases Unspoilt (expired_at now o.preview_expires_at) (λ _ c h. inl refl)
                  λ _.
                    if-cases Unspoilt (not (o.version == version)) (λ _ c h. inl refl)
                      λ _.
                        if-cases Unspoilt
                          (not (expected_phrase o.typed_confirmation_kind == some phrase))
                          (λ _ c h. inl refl)
                          λ _.
                            if-cases Unspoilt (plan_changed digest audit_events now ttl o db.tables)
                              (λ _ c h. inr (sym (refused-injective preview_changed c h)))
                              (λ _ c h. absurd (ground arith)) in
      unspoilt c
