-- ===== src/Scheduling/Topics.antt =====
-- runtime/tools/scheduling.py: an agent's tools and the schedules of other topics.
-- A call of one of the tools.
use moomacha.Scheduling.{
  Answer, refuse, set_args, scheduled, repeated, place, schedule_task, list_my_schedules,
  cancel_schedule, ScheduleTaskInput, Calendar,
}
use moomacha.Base.{
  ℕ, String, ◌≡◌, refl, sym, ap, subst, ◌∙◌, ◌≢◌, Bool, false, not, none, some, List, [], ◌∷◌, ◌++◌,
  arith, ◌==◌, if_ind, Option_ind, length, get, get-update,
}
use moomacha.Base.Results.{Result, ok, raised}
use moomacha.ToolAccess.{ToolContext}
use moomacha.Schedules.{
  Table, row_id, is_active, create_one_shot, in_topic, cancel, create_recurring, cancelled,
  ScheduledJobRow, Event,
}

pub data Call : Type 0 where
  schedules : (uuid now : ℕ) → ScheduleTaskInput → Call
  lists : (include_inactive : Bool) → Call
  cancels : (schedule_id : String) → Call

module _ (calendar : Calendar) (ctx : ToolContext) where
  pub call : Call → Table → Answer
  call (schedules uuid now inp) table = schedule_task calendar uuid now inp ctx table
  call (lists include_inactive) table = list_my_schedules calendar include_inactive ctx table
  call (cancels schedule_id) table = cancel_schedule calendar schedule_id ctx table

  pub calls : List Call → Table → Table
  calls [] table = table
  calls (c ∷ rest) table = calls rest (call c table).1

  module _ (k : ℕ) (r : ScheduledJobRow)
      (elsewhere : in_topic ctx.channel ctx.topic r ≡ false) where
    abbrev Stays : Answer → Type 0
    Stays x = get row_id k x.1 ≡ some r

    get-append :
        (table more : Table) → get row_id k table ≡ some r → get row_id k (table ++ more) ≡ some r
    unfolding get
    get-append [] more e = absurd (ground (arith, e))
    get-append (x ∷ table) more e = ground (arith, get-append table more, e)

    repeated-Stays :
        (table : Table) (cron timezone instruction : String) (uuid now : ℕ)
        → get row_id k table ≡ some r
        → Stays (
            repeated calendar table (
              create_recurring calendar.next_cron uuid ctx.agent.id ctx.channel ctx.topic
                instruction cron timezone now table))
    unfolding repeated create_recurring scheduled
    repeated-Stays table cron timezone instruction uuid now e =
        go (calendar.next_cron cron now timezone) refl
      where
        go :
            (next : Result String ℕ)
            → calendar.next_cron cron now timezone ≡ next
            → Stays (
                repeated calendar table (
                  create_recurring calendar.next_cron uuid ctx.agent.id ctx.channel ctx.topic
                    instruction cron timezone now table))
        go (raised err) found = rw (found, create_recurring) e
        go (ok t) found = rw (found, create_recurring) (get-append table _ e)

    place-Stays :
        (uuid now : ℕ) (inp : ScheduleTaskInput) (table : Table)
        → get row_id k table ≡ some r
        → Stays (place calendar uuid now inp ctx table)
    unfolding place scheduled create_one_shot refuse
    place-Stays uuid now inp table e =
        Option_ind Stays inp.cron (λ gone. get-append table _ e)
          (λ cron found.
            if_ind Stays (not (calendar.is_valid cron)) (λ bad. e)
              (λ good. repeated-Stays table cron inp.timezone inp.instruction uuid now e))

    schedule_task-Stays :
        (uuid now : ℕ) (inp : ScheduleTaskInput) (table : Table)
        → get row_id k table ≡ some r
        → Stays (schedule_task calendar uuid now inp ctx table)
    unfolding schedule_task refuse
    schedule_task-Stays uuid now inp table e =
        if_ind Stays (not (length (set_args inp) == 1)) (λ several. e)
          (λ single.
            if_ind Stays (not (calendar.has_zone inp.timezone)) (λ unknown. e)
              (λ known. place-Stays uuid now inp table e))

    abbrev Kept : Bool × Table × List Event → Type 0
    Kept x = get row_id k x.1 ≡ some r

    -- A schedule of this topic is another one.
    apart :
        (id : ℕ) (table : Table) (x : ScheduledJobRow)
        → get row_id k table ≡ some r
        → get row_id id table ≡ some x
        → not (in_topic ctx.channel ctx.topic x) ≡ false
        → k ≢ id
    apart id table x e found here same =
        let one : some x ≡ some r = sym found ∙ (ap (λ i. get row_id i table) (sym same) ∙ e) in
        let alike : in_topic ctx.channel ctx.topic x ≡ in_topic ctx.channel ctx.topic r =
          subst
            (λ o. elim o as (λ y. Type 0) [
              | none ↦ Unit
              | some y ↦ in_topic ctx.channel ctx.topic x ≡ in_topic ctx.channel ctx.topic y
            ])
            one refl in
        absurd (ground (arith, alike, here, elsewhere))

    cancel-Stays :
        (id : ℕ) (table : Table)
        → get row_id k table ≡ some r
        → get row_id k (cancel id ctx.channel ctx.topic table).1 ≡ some r
    unfolding cancel
    cancel-Stays id table e =
        Option_ind Kept (get row_id id table) (λ gone. e)
          (λ x found.
            if_ind Kept (not (in_topic ctx.channel ctx.topic x)) (λ other. e)
              (λ here.
                if_ind Kept (not (is_active x)) (λ idle. e)
                  (λ on. ground (
                    arith,
                    get-update row_id (λ y. record y { status = cancelled }) k id table (λ y. refl),
                    apart id table x e found here,
                  ))))

    call-Stays : (c : Call) (table : Table) → get row_id k table ≡ some r → Stays (call c table)
    unfolding call list_my_schedules cancel_schedule refuse
    call-Stays (schedules uuid now inp) table e = schedule_task-Stays uuid now inp table e
    call-Stays (lists include_inactive) table e = e
    call-Stays (cancels schedule_id) table e =
        Option_ind Stays (calendar.read_uuid schedule_id) (λ bad. e)
          (λ id found. cancel-Stays id table e)

    -- Over any calls of the scheduling tools in a turn, with any arguments, a schedule of another
    -- channel or topic stays as it is.
    pub calls-Stays :
        (cs : List Call) (table : Table)
        → get row_id k table ≡ some r
        → get row_id k (calls cs table) ≡ some r
    unfolding calls
    calls-Stays [] table e = e
    calls-Stays (c ∷ cs) table e = calls-Stays cs (call c table).1 (call-Stays c table e)
