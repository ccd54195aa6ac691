-- ===== src/Tests/Programs.antt =====
-- Runs of the entry point and of the queue of the event loop.
use vsr_kv.Common.{some, true, ℕ, zero, suc, ◌+◌, ◌≡◌, refl, List, [], ◌∷◌, ◌++◌}
use vsr_kv.Network.Handshake.{stoi}
use vsr_kv.Tests.Data.{noon}
use vsr_kv.ServerMain.{Exit, main, with_id}
use vsr_kv.IoUringLoop.Ring.{
  Ring, IoRequest, read_request, eventfd_request, submit, submit_read, post_eventfd_read, complete,
  without,
}
use vsr_kv.IoUringLoop.Ring as Ring
use vsr_kv.IoUringLoop.Answers.{Answers, Conserved, requests_answered}
use vsr_kv.IoUringLoop.{
  Traced, post, post_all, run_item, run_items, process_work_queue, Step, Reach, runs_in_order,
}

-- An argument that is no number ends the program, as does a negative one.
not_a_number : main noon ((b'x' ∷ []) ∷ []) ≡ Exit.uncaught
unfolding main stoi with_id
not_a_number = refl

negative : main noon ((b'-' ∷ b'1' ∷ []) ∷ []) ≡ Exit.not_found
unfolding main stoi with_id
negative = refl

-- A task with a positive number posts the one below.
abbrev countdown : ℕ → ℕ → ℕ × List ℕ
countdown zero total = (total, [])
countdown (suc n) total = (total + 1, n ∷ [])

abbrev idle : Traced ℕ ℕ
idle = record { loop = record { work_queue = []; store = 0 }; ran = []; posted = [] }

-- Two tasks are posted, and the loop wakes up once.
abbrev woken : Traced ℕ ℕ
woken = process_work_queue countdown (post 0 (post 2 idle))

reached : Reach countdown 0 woken
reached =
    Reach.next
      (Reach.next (Reach.next Reach.started (Step.posts idle 2)) (Step.posts (post 2 idle) 0))
      (Step.wakes (post 0 (post 2 idle)))

runs_in_order_example :
    (woken.posted ≡ woken.ran ++ woken.loop.work_queue)
    × ((process_work_queue countdown woken).ran ≡ 2 ∷ 0 ∷ 1 ∷ [])
unfolding process_work_queue run_items run_item post_all post
runs_in_order_example = runs_in_order countdown reached

-- A read of ten bytes on connection 4, next to the read of the eventfd.
abbrev read_of_ten : IoRequest ℕ ℕ ℕ
read_of_ten = read_request ℕ ℕ ℕ 4 10 7

abbrev eventfd_read : IoRequest ℕ ℕ ℕ
eventfd_read = eventfd_request ℕ ℕ ℕ

abbrev two_reads : Ring ℕ ℕ ℕ ℕ
two_reads = record {
  prepared = [];
  in_flight = eventfd_read ∷ read_of_ten ∷ [];
  submitted = eventfd_read ∷ read_of_ten ∷ [];
  answered = [];
  called = [];
}

two_reads_reached : Ring.Reach ℕ ℕ ℕ ℕ two_reads
unfolding post_eventfd_read submit submit_read
two_reads_reached =
    Ring.Reach.next (Ring.Reach.next (Ring.Reach.started _ refl) (Ring.Step.reads _ true 4 10 7))
      (Ring.Step.waits _)

requests_answered_example :
    Conserved ℕ ℕ ℕ ℕ two_reads
    × ((next : Ring ℕ ℕ ℕ ℕ) × (complete ℕ ℕ ℕ ℕ true read_of_ten 10
            (without ℕ ℕ ℕ ℕ (eventfd_read ∷ []) [] two_reads)
          ≡ some next)
        × Answers ℕ ℕ ℕ ℕ read_of_ten 10 two_reads next)
requests_answered_example =
    requests_answered ℕ ℕ ℕ ℕ two_reads (eventfd_read ∷ []) read_of_ten [] 10 two_reads_reached refl
