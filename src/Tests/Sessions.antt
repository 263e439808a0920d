-- ===== src/Tests/Sessions.antt =====
-- The bastion's tools, the reaper and recovery on the busy database.
use moomacha.Base.{
  ℕ, ◌+◌, ◌*◌, String, ◌≡◌, refl, ◌≢◌, true, false, none, some, [], ◌∷◌, or_else, All, get, update,
  sweep, first_by,
}
use moomacha.Rows.{free, leased, PoolBotRow, provisioning, dormant, closed, SessionRow}
use moomacha.Pool.{Bots}
use moomacha.Sessions.{Sessions}
use moomacha.Lifecycle.{reclaim_for_capacity, reaper_tick, recover_pool_consistency, Db}
use moomacha.Lifecycle.Bound.{IsBound}
use moomacha.Lifecycle.Reclaim.{IsBound-reclaim}
use moomacha.Lifecycle.Recovery.{IsServing, recover-IsServing, recover-recover}
use moomacha.SpinUp.{
  snapshot_for, acquire_bot, spin_up_session, close_session, rolled_back, spun_up,
}
use moomacha.SpinUp.Outcome.{Outcome}
use moomacha.SpinUp.Tools.{spin_up-IsBound, spin_up-Outcome}
use moomacha.SpinUp.Closing.{ClosesTopic, close_session-IsBound, close_session-ClosesTopic}
use moomacha.SpinUp.Reached.{reached-exclusive, spins_up, reaps, Reached, fresh, next}
use moomacha.Tests.Fixtures.{bot, session, busy, context, request, clock, busy-IsBound}
use moomacha.Pool
use moomacha.Sessions

spin_up_reclaims :
    (spin_up_session (context true) [] (request "gamma") 13 20 clock busy).0
    ≡ spun_up "pool-bot@example.com"
unfolding spin_up_session acquire_bot snapshot_for Sessions.resolve_for_topic Sessions.create
    Sessions.bind_pool_bot Pool.lease Pool.next_free Pool.release reclaim_for_capacity Pool.find
    Sessions.close Sessions.set_state Sessions.mark_live Sessions.oldest_dormant first_by get update
    Pool.resolve_creds
spin_up_reclaims = refl

spin_up_rolls_back :
    (spin_up_session (context false) [] (request "gamma") 13 20 clock busy).0 ≡ rolled_back
unfolding spin_up_session acquire_bot snapshot_for Sessions.resolve_for_topic Sessions.create
    Sessions.bind_pool_bot Pool.lease Pool.next_free Pool.release reclaim_for_capacity Pool.find
    Sessions.close Sessions.set_state Sessions.mark_live Sessions.oldest_dormant first_by get update
    Pool.resolve_creds
spin_up_rolls_back = refl

not_there : Sessions.find 13 busy.sessions ≡ none
unfolding Sessions.find get
not_there = refl

spin_up-IsBound_example :
    IsBound (spin_up_session (context false) [] (request "gamma") 13 20 clock busy).1
spin_up-IsBound_example =
    spin_up-IsBound (context false) [] (request "gamma") 13 20 clock busy busy-IsBound not_there

spin_up-Outcome_example :
    Outcome "lab" "gamma" 13 busy
      (spin_up_session (context true) [] (request "gamma") 13 20 clock busy)
spin_up-Outcome_example =
    spin_up-Outcome (context true) [] (request "gamma") 13 20 clock busy busy-IsBound not_there

close_session-IsBound_example :
    IsBound (close_session (context true) (some "lab") (some "alpha") clock busy).1
close_session-IsBound_example =
    close_session-IsBound (context true) (some "lab") (some "alpha") clock busy busy-IsBound

close_session-ClosesTopic_example :
    ClosesTopic "lab" "alpha" busy
      (close_session (context true) (some "lab") (some "alpha") clock busy)
close_session-ClosesTopic_example =
    close_session-ClosesTopic (context true) (some "lab") (some "alpha") clock busy busy-IsBound

IsBound-reclaim_example : IsBound (reclaim_for_capacity clock busy).1
IsBound-reclaim_example = IsBound-reclaim clock busy busy-IsBound

-- A deployment with one free bot, and what a spin-up and a tick of the reaper make of it.
abbrev bots : Bots
bots = bot 1 free none 3 ∷ []

abbrev first_day : Db
first_day = record { pool = bots; sessions = [] }

abbrev spun : Db
spun = (spin_up_session (context true) [] (request "gamma") 13 20 clock first_day).1

abbrev reaped : Db
reaped = record spun { sessions = reaper_tick 5000000 1 clock spun.sessions }

none_yet : Sessions.find 13 first_day.sessions ≡ none
unfolding Sessions.find get
none_yet = refl

reaped-Reached : Reached String reaped
unfolding get
reaped-Reached =
    next
      (next (fresh bots (refl, tt))
        (spins_up (context true) [] (request "gamma") 13 20 clock first_day none_yet))
      (reaps 5000000 1 clock spun)

abbrev the_row : SessionRow
the_row = or_else (Sessions.find 13 reaped.sessions) (session 0 "" closed none)

-- It is there, sleeps and keeps its bot.
the_session :
    (Sessions.find 13 reaped.sessions ≡ some the_row)
    × (the_row.state ≡ dormant)
    × (the_row.pool_bot_id ≡ some 1)
unfolding spin_up_session acquire_bot snapshot_for Sessions.resolve_for_topic Sessions.create
    Sessions.bind_pool_bot Pool.lease Pool.next_free Pool.release reclaim_for_capacity Pool.find
    Sessions.close Sessions.set_state Sessions.mark_live Sessions.oldest_dormant first_by get update
    Pool.resolve_creds Sessions.find reaper_tick Sessions.find_idle sweep
the_session = (refl, refl, refl)

found_by_id : Sessions.find the_row.id reaped.sessions ≡ some the_row
unfolding spin_up_session acquire_bot snapshot_for Sessions.resolve_for_topic Sessions.create
    Sessions.bind_pool_bot Pool.lease Pool.next_free Pool.release reclaim_for_capacity Pool.find
    Sessions.close Sessions.set_state Sessions.mark_live Sessions.oldest_dormant first_by get update
    Pool.resolve_creds Sessions.find reaper_tick Sessions.find_idle sweep
found_by_id = refl

sleeps : the_row.state ≢ closed
sleeps shut = absurd (cc (the_session.1, shut))

reached-exclusive_example :
    (the_row.id ≡ 13)
    × (bot : PoolBotRow) × (Pool.find 1 reaped.pool ≡ some bot)
    × (bot.status ≡ leased)
    × (bot.current_session_id ≡ some the_row.id)
reached-exclusive_example =
    reached-exclusive the_row.id 13 1 the_row the_row reaped-Reached found_by_id the_session.0
      sleeps sleeps the_session.2 the_session.2

-- What a crash left: a session that never went live, its bot, and a bot of no session.
abbrev crashed : Db
crashed = record {
  pool = bot 1 leased (some 11) 5 ∷ bot 2 leased none 3 ∷ [];
  sessions = session 11 "alpha" provisioning (some 1) ∷ [];
}

abbrev clocks : ℕ → ℕ → ℕ
clocks i j = 20 + 2 * i + j

recover-IsServing_example :
    All (λ s. s.state ≢ provisioning) (recover_pool_consistency clocks clock crashed).sessions
    × All
        (λ b.
          b.status ≡ leased → IsServing (recover_pool_consistency clocks clock crashed).sessions b)
        (recover_pool_consistency clocks clock crashed).pool
recover-IsServing_example = recover-IsServing clocks clock crashed

recover-recover_example :
    recover_pool_consistency clocks clock (recover_pool_consistency clocks clock crashed)
    ≡ recover_pool_consistency clocks clock crashed
recover-recover_example = recover-recover clocks clock clocks clock crashed
