-- ===== src/Banking/Completion.antt =====
-- Sequences of operations on the repository of banking/repository.py.
use fxfill_enterprise_bankin.Common.{
  ℕ, ◌+◌, ◌≤◌, String, ◌≡◌, true, false, ◌&&◌, List, [], ◌∷◌, contains, is_nonempty, ◌==◌, eq_iff,
  if◌then◌else◌, arith, inl, inr, Option-cases, Bool-cases,
}
use fxfill_enterprise_bankin.Sql.{find}
use fxfill_enterprise_bankin.Banking.{
  Money, Account, TransferDraft, Repository, Reply, ok, refused, draft_key, account_key,
  DraftRequest, create_transfer_draft, submit_transfer, submit_draft, debit, cancel_transfer,
}

pub data Op (A : Type 0) : Type 0 where
  do_create : DraftRequest A → (uuid : String) → ℕ → Op A
  do_submit : (draft_id user_id uuid : String) → (ℕ → ℕ) → Op A
  do_cancel : (draft_id user_id : String) → Op A

module _ {A : Type 0} where
  unfoldable pub apply : Money A → Op A → Repository A → Repository A
  apply m (do_create q uuid now) repo = (create_transfer_draft m q uuid now repo).1
  apply m (do_submit id user uuid now) repo = (submit_transfer m id user uuid now repo).1
  apply m (do_cancel id user) repo = (cancel_transfer id user repo).1

  -- Whether a reply completes a transfer with the idempotency key.
  abbrev pub completes : String → Reply (TransferDraft A) → ℕ
  completes k (refused e) = 0
  completes k (ok d) = if d.idempotency_key == k then 1 else 0

  pub completions : Money A → String → List (Op A) → Repository A → ℕ
  completions m k [] repo = 0
  completions m k (do_submit id user uuid now ∷ ops) repo =
      completes k (submit_transfer m id user uuid now repo).0
      + completions m k ops (submit_transfer m id user uuid now repo).1
  completions m k (do_create q uuid now ∷ ops) repo =
      completions m k ops (create_transfer_draft m q uuid now repo).1
  completions m k (do_cancel id user ∷ ops) repo =
      completions m k ops (cancel_transfer id user repo).1

  module _ (m : Money A) (k : String) (given : is_nonempty k ≡ true) where
    used : Repository A → ℕ
    used repo = if contains k repo.completed_transfers then 1 else 0

    debit-uses :
        (d : TransferDraft A) (acc : Account A) (uuid : String) (now : ℕ) (repo : Repository A)
        → (is_nonempty d.idempotency_key && contains d.idempotency_key repo.completed_transfers)
          ≡ false
        → completes k (debit m d acc uuid now repo).0 + used repo
          ≤ used (debit m d acc uuid now repo).1
    unfolding debit used
    debit-uses d acc uuid now repo fresh = ground (arith, eq_iff d.idempotency_key k)

    submit_draft-uses :
        (d : TransferDraft A) (user uuid : String) (now : ℕ → ℕ) (repo : Repository A)
        → completes k (submit_draft m d user uuid now repo).0 + used repo
          ≤ used (submit_draft m d user uuid now repo).1
    unfolding submit_draft used
    submit_draft-uses d user uuid now repo =
        elim (Bool-cases
          (is_nonempty d.idempotency_key && contains d.idempotency_key repo.completed_transfers)) [
            | inl e ↦ ground arith
            | inr e ↦ elim (Option-cases (find account_key d.source_account_id repo.accounts)) [
              | inl e' ↦ ground arith
              | inr (acc, e') ↦ ground (arith, debit-uses d acc uuid (now 1) repo e)
            ]
          ]

    submit_transfer-uses :
        (id user uuid : String) (now : ℕ → ℕ) (repo : Repository A)
        → completes k (submit_transfer m id user uuid now repo).0 + used repo
          ≤ used (submit_transfer m id user uuid now repo).1
    unfolding submit_transfer used
    submit_transfer-uses id user uuid now repo =
        elim (Option-cases (find draft_key id repo.transfer_drafts)) [
          | inl e ↦ rw (e, submit_transfer) (ground arith)
          | inr (d, e) ↦ rw (e, submit_transfer) (submit_draft-uses d user uuid now repo)
        ]

    create-uses :
        (q : DraftRequest A) (uuid : String) (now : ℕ) (repo : Repository A)
        → used (create_transfer_draft m q uuid now repo).1 ≡ used repo
    unfolding create_transfer_draft used
    create-uses q uuid now repo = ground arith

    cancel-uses :
        (id user : String) (repo : Repository A) → used (cancel_transfer id user repo).1 ≡ used repo
    unfolding cancel_transfer used
    cancel-uses id user repo = ground arith

    completions_bound :
        (ops : List (Op A)) (repo : Repository A) → completions m k ops repo + used repo ≤ 1
    unfolding completions used
    completions_bound [] repo = ground arith
    completions_bound (do_create q uuid now ∷ ops) repo = omega (
      arith,
      create-uses q uuid now repo,
      completions_bound ops (create_transfer_draft m q uuid now repo).1,
    )
    completions_bound (do_submit id user uuid now ∷ ops) repo = omega (
      arith,
      submit_transfer-uses id user uuid now repo,
      completions_bound ops (submit_transfer m id user uuid now repo).1,
    )
    completions_bound (do_cancel id user ∷ ops) repo =
        omega
          (arith, cancel-uses id user repo, completions_bound ops (cancel_transfer id user repo).1)

    -- However drafts are created, submitted and cancelled, a non-empty idempotency key completes at
    -- most one transfer, from any repository, whatever the amounts and their operations are.
    pub one_completion_per_key :
        (ops : List (Op A)) (repo : Repository A) → completions m k ops repo ≤ 1
    one_completion_per_key ops repo = omega (arith, completions_bound ops repo)
