-- ===== src/Schedules/Claims.antt =====
-- One call of `claim_due`, row by row.
use moomacha.Base.{
  ℕ, ◌≤◌, ◌<◌, String, ◌≡◌, refl, ◌⊎◌, inl, inr, true, false, [], ◌∷◌, arith, Bool-cases,
  Option-cases, length, filter, count, All, All-impl, length-append, length-take-le, take-nil,
  take_of_length-le, length-filter, In, filter-In, filter-none, sweep, All-sweep, order_by,
  length-order_by, In-order_by,
}
use moomacha.Base.Results.{Result, ok, raised}
use moomacha.Schedules.{
  Table, row_id, cron_of, is_due, quarantined, next_run, due_rows, handle_one_shot, handle_next,
  handle_recurring, handle, reports, claim_due, Kind, one_shot, recurring, ScheduledJobRow, Handled,
}

module _ (next_cron : String → ℕ → String → Result String ℕ) where
  -- croniter's documented contract: the next occurrence is strictly later.
  abbrev pub IsStrict : Type 0
  IsStrict =
      (cron timezone : String) (after t : ℕ) → next_cron cron after timezone ≡ ok t → after < t

  abbrev AtMostOne : Handled → Type 0
  AtMostOne h = length h.reported ≤ 1

  module _ (now grace : ℕ) (r : ScheduledJobRow) where
    -- The two kinds of row, with the results that a cron lookup can have.
    pub handle_ind :
        (P : Handled → Type 0)
        → P (handle_one_shot next_cron now grace r)
        → ((message : String) → P (quarantined r message))
        → ((cron : String) (t : ℕ)
            → next_cron cron now r.timezone ≡ ok t
            → P (handle_next next_cron now grace r (ok t)))
        → P (handle next_cron now grace r)
    unfolding handle handle_one_shot
    handle_ind P shot bad good = go r.kind refl
      where
        cron_case :
            (cron : String) (next : Result String ℕ)
            → next_cron cron now r.timezone ≡ next
            → P (handle_next next_cron now grace r (next_cron cron now r.timezone))
        cron_case cron (raised e) h = unfold handle_next in rw h (bad e)
        cron_case cron (ok t) h = rw h (good cron t h)

        go : (k : Kind) → r.kind ≡ k → P (handle next_cron now grace r)
        go one_shot e = rw (e, handle) shot
        go recurring e =
            rw (e, handle)
              (elim (Option-cases (cron_of r.cron_expression)) [
                | inl missing ↦
                    rw (missing, handle_recurring) (bad "recurring schedule has no cron_expression")
                | inr (cron, found) ↦
                    rw (found, handle_recurring)
                      (cron_case cron (next_cron cron now r.timezone) refl)
              ])

    -- A row that was handled is no longer due: it is done, quarantined, or strictly in the future.
    pub handle_settles : IsStrict → is_due now (handle next_cron now grace r).row ≡ false
    unfolding handle_one_shot handle_next
    handle_settles strict =
        handle_ind (λ h. is_due now h.row ≡ false) (ground arith) (λ message. refl)
          (λ cron t next. ground (arith, strict cron r.timezone now t next))

    handle-AtMostOne : AtMostOne (handle next_cron now grace r)
    unfolding handle_one_shot handle_next
    handle-AtMostOne =
        handle_ind AtMostOne (ground arith) (λ message. omega arith) (λ cron t next. ground arith)

  length-reports-le :
      (now grace : ℕ) (rows : Table) → length (reports next_cron now grace rows) ≤ length rows
  unfolding reports
  length-reports-le now grace [] = omega arith
  length-reports-le now grace (r ∷ rows) = omega (
    arith,
    length-append (handle next_cron now grace r).reported (reports next_cron now grace rows),
    handle-AtMostOne now grace r,
    length-reports-le now grace rows,
  )

  -- A claim reports at most as many outcomes as its limit.
  pub claim_due-le-limit :
      (now grace limit : ℕ) (table : Table)
      → length (claim_due next_cron now grace limit table).1 ≤ limit
  unfolding claim_due due_rows
  claim_due-le-limit now grace limit table = omega (
    arith,
    length-reports-le now grace (due_rows now limit table),
    length-take-le limit (order_by next_run (filter (is_due now) table)),
  )

  -- After a claim whose limit covers all that is due, nothing is due at that time.
  claim_due-settled :
      (now grace limit : ℕ) (table : Table)
      → IsStrict
      → count (is_due now) table ≤ limit
      → All (λ r. is_due now r ≡ false) (claim_due next_cron now grace limit table).0
  unfolding claim_due due_rows
  claim_due-settled now grace limit table strict room =
      All-sweep row_id (λ r. is_due now r ≡ false) (λ _. true)
        (λ _ r. (handle next_cron now grace r).row) 0 (due_rows now limit table) table
        (λ i r. handle_settles now grace r strict) (λ r e. cc)
        (All-impl (λ r. is_due now r ≡ true → In r (filter (is_due now) table))
          (λ r. (is_due now r ≡ false) ⊎ In r (due_rows now limit table)) table
          (λ r h. elim (Bool-cases (is_due now r)) [
            | inl e ↦ inr (rw all_read (In-order_by next_run r (filter (is_due now) table) (h e)))
            | inr e ↦ inl e
          ])
          (filter-In (is_due now) table))
    where
      all_read : due_rows now limit table ≡ order_by next_run (filter (is_due now) table)
      all_read = take_of_length-le limit (order_by next_run (filter (is_due now) table)) (
          omega (
            arith,
            length-order_by next_run (filter (is_due now) table),
            length-filter (is_due now) table,
          ))

  nothing_due :
      (now grace limit : ℕ) (t : Table)
      → All (λ r. is_due now r ≡ false) t
      → claim_due next_cron now grace limit t ≡ (t, [], [])
  unfolding claim_due sweep reports
  nothing_due now grace limit t idle = rw (no_rows, claim_due)
    where
      no_rows : due_rows now limit t ≡ []
      no_rows = unfold due_rows order_by in rw (filter-none (is_due now) t idle) (take-nil limit)

  -- If cron times lie strictly ahead and the limit covers all that is due, another claim at that
  -- time reports nothing, emits nothing and changes nothing.
  pub claim_due_again :
      (now grace limit grace' limit' : ℕ) (table : Table)
      → IsStrict
      → count (is_due now) table ≤ limit
      → claim_due next_cron now grace' limit' (claim_due next_cron now grace limit table).0
        ≡ ((claim_due next_cron now grace limit table).0, [], [])
  claim_due_again now grace limit grace' limit' table strict room =
      nothing_due now grace' limit' (claim_due next_cron now grace limit table).0
        (claim_due-settled now grace limit table strict room)
