-- ===== src/Schedules/Arming.antt =====
-- How often a one-shot schedule can still fire: the rows that are armed, and what uses them up.
use moomacha.Base.{
  ℕ, suc, ◌+◌, ◌≤◌, String, ◌≡◌, refl, ap, ◌∙◌, ◌≢◌, inl, inr, Bool, true, false, ◌&&◌, none, [],
  ◌∷◌, ◌++◌, arith, ◌==◌, if◌then◌else◌, Bool-cases, filter, any, count, All, All-append,
  count-append, count_of_any, count-take-le, count-filter, get, update, NodupKeys, All-update,
  sweep, order_by, count-order_by,
}
use moomacha.Base.Results.{Result}
use moomacha.Schedules.{
  Table, row_id, is_active, is_due, outcome, next_run, due_rows, handle_one_shot, handle_next,
  handle, reports, claim_due, one_shot, cancelled, ScheduledJobRow, fire, miss, ClaimOutcome,
}
use moomacha.Schedules.Claims.{handle_ind}

abbrev pub is_fire : ℕ → ClaimOutcome → Bool
is_fire k o = o.schedule_id == k && elim o.action [ fire ↦ true | miss ↦ false ]

abbrev pub has_id : ℕ → ScheduledJobRow → Bool
has_id k r = r.id == k

-- The rows of a schedule that can still fire.
abbrev pub armed : ℕ → Table → ℕ
armed k table = count (λ r. has_id k r && is_active r) table

-- Whatever has this id is a one-shot.
abbrev pub IsShot : ℕ → Table → Type 0
IsShot k table = All (λ r. has_id k r ≡ true → r.kind ≡ one_shot) table

-- A change of a row that keeps what it is, and ends it if it is a one-shot.
pub record Ends (f : ScheduledJobRow → ScheduledJobRow) : Type 0 where
  pub same_id : (r : ScheduledJobRow) → (f r).id ≡ r.id
  pub same_kind : (r : ScheduledJobRow) → (f r).kind ≡ r.kind
  pub stops : (r : ScheduledJobRow) → r.kind ≡ one_shot → is_active (f r) ≡ false

module _ (f : ScheduledJobRow → ScheduledJobRow) (ends : Ends f) (k : ℕ) where
  pub update-IsShot : (j : ℕ) (table : Table) → IsShot k table → IsShot k (update row_id j f table)
  update-IsShot j table h =
      All-update row_id (λ r. has_id k r ≡ true → r.kind ≡ one_shot)
        (λ r. has_id k r ≡ true → r.kind ≡ one_shot) f j table
        (λ r p _ e. ends.same_kind r ∙ p (ground (arith, ends.same_id r))) (λ r p _. p) h

  pub armed-update :
      (j : ℕ) (table : Table)
      → IsShot k table
      → armed k (update row_id j f table) ≡ (if j == k then 0 else armed k table)
  unfolding update
  armed-update j [] h = ground arith
  armed-update j (r ∷ table) h =
      ground (arith, ends.same_id r, ends.stops r, h.0, armed-update j table h.1)

  armed-sweep :
      (i : ℕ) (seen table : Table)
      → IsShot k table
      → armed k (sweep row_id (λ _. true) (λ _. f) i seen table)
        ≡ (if any (has_id k) seen then 0 else armed k table)
  unfolding sweep
  armed-sweep i [] table h = refl
  armed-sweep i (r ∷ seen) table h = ground (
    arith,
    armed-sweep (suc i) seen (update row_id r.id f table) (update-IsShot r.id table h),
    armed-update r.id table h,
  )

  pub sweep-IsShot :
      (i : ℕ) (seen table : Table)
      → IsShot k table
      → IsShot k (sweep row_id (λ _. true) (λ _. f) i seen table)
  unfolding sweep
  sweep-IsShot i [] table h = h
  sweep-IsShot i (r ∷ seen) table h =
      sweep-IsShot (suc i) seen (update row_id r.id f table) (update-IsShot r.id table h)

module _ (next_cron : String → ℕ → String → Result String ℕ) (now grace : ℕ) where
  pub handle-Ends : Ends (λ r. (handle next_cron now grace r).row)
  unfolding handle_one_shot handle_next handle
  handle-Ends = record {
    same_id = λ r.
        handle_ind next_cron now grace r (λ h. h.row.id ≡ r.id) (ground arith) (λ m. refl)
          (λ c t e. ground arith);
    same_kind = λ r.
        handle_ind next_cron now grace r (λ h. h.row.kind ≡ r.kind) (ground arith) (λ m. refl)
          (λ c t e. ground arith);
    stops = λ r e. ground (arith, e);
  }

  fires-reported :
      (k : ℕ) (r : ScheduledJobRow)
      → count (is_fire k) (handle next_cron now grace r).reported ≤ (if has_id k r then 1 else 0)
  unfolding handle_one_shot handle_next outcome
  fires-reported k r =
      handle_ind next_cron now grace r
        (λ h. count (is_fire k) h.reported ≤ (if has_id k r then 1 else 0)) (ground arith)
        (λ m. omega arith) (λ c t e. ground arith)

  fires-reports :
      (k : ℕ) (rows : Table)
      → count (is_fire k) (reports next_cron now grace rows) ≤ count (has_id k) rows
  unfolding reports
  fires-reports k [] = omega arith
  fires-reports k (r ∷ rows) = ground (
    arith,
    count-append (is_fire k) (handle next_cron now grace r).reported
        (reports next_cron now grace rows),
    fires-reported k r,
    fires-reports k rows,
  )

  count-due_rows :
      (k limit : ℕ) (table : Table) → count (has_id k) (due_rows now limit table) ≤ armed k table
  unfolding due_rows
  count-due_rows k limit table = omega (
    arith,
    count-take-le (has_id k) limit (order_by next_run (filter (is_due now) table)),
    count-order_by next_run (has_id k) (filter (is_due now) table),
    count-filter (has_id k) (is_due now) table,
    due-armed k table,
  )
    where
      due-armed : (k : ℕ) (t : Table) → count (λ r. is_due now r && has_id k r) t ≤ armed k t
      due-armed k [] = omega arith
      due-armed k (r ∷ t) = ground (arith, due-armed k t)

  -- What is armed before a claim covers what fires in it and what stays armed.
  pub fires-claim_due :
      (k limit : ℕ) (table : Table)
      → IsShot k table
      → count (is_fire k) (claim_due next_cron now grace limit table).1
          + armed k (claim_due next_cron now grace limit table).0
        ≤ armed k table
  unfolding claim_due
  fires-claim_due k limit table h =
      let rows = due_rows now limit table in
      elim (Bool-cases (any (has_id k) rows)) [
        | inl hit ↦ omega (
          arith,
          (rw hit at
              (armed-sweep (λ r. (handle next_cron now grace r).row) handle-Ends k 0 rows table h)),
          fires-reports k rows,
          count-due_rows k limit table,
        )
        | inr off ↦ omega (
          arith,
          (rw off at
              (armed-sweep (λ r. (handle next_cron now grace r).row) handle-Ends k 0 rows table h)),
          fires-reports k rows,
          count_of_any (has_id k) rows off,
        )
      ]

pub cancel-Ends : Ends (λ r. record r { status = cancelled })
cancel-Ends = record { same_id = λ r. refl; same_kind = λ r. refl; stops = λ r e. refl }

pub armed-append :
    (k : ℕ) (table : Table) (r : ScheduledJobRow)
    → r.id ≢ k
    → armed k (table ++ r ∷ []) ≡ armed k table
armed-append k table r other =
    count-append (λ x. has_id k x && is_active x) table (r ∷ []) ∙ ground arith

pub append-IsShot :
    (k : ℕ) (table : Table) (r : ScheduledJobRow)
    → r.id ≢ k
    → IsShot k table
    → IsShot k (table ++ r ∷ [])
append-IsShot k table r other h =
    All-append (λ x. has_id k x ≡ true → x.kind ≡ one_shot) table (r ∷ []) h
      (λ e. absurd (other (ground arith)), tt)

armed-none : (k : ℕ) (table : Table) → get row_id k table ≡ none → armed k table ≡ 0
unfolding get
armed-none k [] e = refl
armed-none k (r ∷ table) e = ground (arith, armed-none k table)

pub armed-le-one : (k : ℕ) (table : Table) → NodupKeys row_id table → armed k table ≤ 1
armed-le-one k [] d = omega arith
armed-le-one k (r ∷ table) d = ground (
  arith,
  armed-none r.id table d.0,
  ap (λ x. armed x table) {x = r.id} {y = k},
  armed-le-one k table d.1,
)
