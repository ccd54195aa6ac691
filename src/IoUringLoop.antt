-- ===== src/IoUringLoop.antt =====
-- common/io_uring_loop.cpp: the queue of the tasks that are posted to the loop.
pub mod Ring
pub mod Answers
use vsr_kv.Common.{◌≡◌, refl, sym, ap, ◌∙◌, List, [], ◌∷◌, ◌++◌, append-nil, append_assoc}

-- `Task` is what is posted, and `Store` what the tasks work on.
pub record IoUringLoop (Task Store : Type 0) : Type 0 where
  pub work_queue : List Task
  pub store : Store

-- The tasks that have been run, and the ones that have been posted, are kept in their order, for
-- the statements about them.
pub record Traced (Task Store : Type 0) : Type 0 where
  pub loop : IoUringLoop Task Store
  pub ran : List Task
  pub posted : List Task

module _ {Task Store : Type 0} where
  unfoldable pub post : Task → Traced Task Store → Traced Task Store
  post work t = record t {
    loop = record (t.loop) { work_queue = t.loop.work_queue ++ (work ∷ []) };
    posted = t.posted ++ (work ∷ []);
  }

  unfoldable pub post_all : List Task → Traced Task Store → Traced Task Store
  unfolding post
  post_all [] t = t
  post_all (work ∷ works) t = post_all works (post work t)

  -- A task changes the store and posts tasks.
  module _ (run : Task → Store → Store × List Task) where
    -- The task is on its way: the store is changed, and nothing has been posted yet.
    abbrev pub running : Task → Traced Task Store → Traced Task Store
    running work t = record t {
      loop = record (t.loop) { store = (run work t.loop.store).0 };
      ran = t.ran ++ (work ∷ []);
    }

    unfoldable pub run_item : Task → Traced Task Store → Traced Task Store
    unfolding post_all
    run_item work t = post_all ((run work t.loop.store).1) (running work t)

    unfoldable pub run_items : List Task → Traced Task Store → Traced Task Store
    unfolding run_item
    run_items [] t = t
    run_items (work ∷ current_work) t = run_items current_work (run_item work t)

    abbrev pub swapped : Traced Task Store → Traced Task Store
    swapped t = record t { loop = record (t.loop) { work_queue = [] } }

    -- The queue is swapped with an empty one before the first task runs.
    unfoldable pub process_work_queue : Traced Task Store → Traced Task Store
    unfolding run_items
    process_work_queue t = run_items t.loop.work_queue (swapped t)

    -- Another thread posts a task, or the loop wakes up.
    pub data Step : Traced Task Store → Traced Task Store → Type 0 where
      posts : (t : Traced Task Store) (work : Task) → Step t (post work t)
      wakes : (t : Traced Task Store) → Step t (process_work_queue t)

    pub data Reach (store : Store) : Traced Task Store → Type 0 where
      started :
          Reach store
            (record { loop = record { work_queue = []; store = store }; ran = []; posted = [] })
      next : {t u : Traced Task Store} → Reach store t → Step t u → Reach store u

    -- What has been posted is what has been run and what waits.
    abbrev InOrder : List Task → Traced Task Store → Type 0
    InOrder current t = t.posted ≡ t.ran ++ (current ++ t.loop.work_queue)

    post-InOrder :
        (current : List Task) (work : Task) (t : Traced Task Store)
        → InOrder current t
        → InOrder current (post work t)
    unfolding post
    post-InOrder current work t h =
        ap (λ ps. ps ++ (work ∷ [])) h
        ∙ append_assoc t.ran (current ++ t.loop.work_queue) (work ∷ [])
        ∙ ap (λ ps. t.ran ++ ps) (append_assoc current t.loop.work_queue (work ∷ []))

    post_all-InOrder :
        (works current : List Task) (t : Traced Task Store)
        → InOrder current t
        → InOrder current (post_all works t)
    unfolding post_all
    post_all-InOrder [] current t h = h
    post_all-InOrder (work ∷ works) current t h =
        post_all-InOrder works current (post work t) (post-InOrder current work t h)

    run_items-InOrder :
        (current : List Task) (t : Traced Task Store)
        → InOrder current t
        → InOrder [] (run_items current t)
    unfolding run_items run_item
    run_items-InOrder [] t h = h
    run_items-InOrder (work ∷ current) t h = run_items-InOrder current (run_item work t) (
        post_all-InOrder ((run work t.loop.store).1) current (running work t)
          (h ∙ sym (append_assoc t.ran (work ∷ []) (current ++ t.loop.work_queue))))

    Step-InOrder : {t u : Traced Task Store} → Step t u → InOrder [] t → InOrder [] u
    unfolding process_work_queue
    Step-InOrder (Step.posts t work) h = post-InOrder [] work t h
    Step-InOrder (Step.wakes t) h =
        run_items-InOrder t.loop.work_queue (swapped t)
          (h ∙ ap (λ ps. t.ran ++ ps) (sym (append-nil t.loop.work_queue)))

    Reach-InOrder : {store : Store} {t : Traced Task Store} → Reach store t → InOrder [] t
    Reach-InOrder Reach.started = refl
    Reach-InOrder (Reach.next r step) = Step-InOrder step (Reach-InOrder r)

    post_all-ran : (works : List Task) (t : Traced Task Store) → (post_all works t).ran ≡ t.ran
    unfolding post_all post
    post_all-ran [] t = refl
    post_all-ran (work ∷ works) t = post_all-ran works (post work t)

    run_items-ran :
        (current : List Task) (t : Traced Task Store) → (run_items current t).ran ≡ t.ran ++ current
    unfolding run_items run_item
    run_items-ran [] t = sym (append-nil t.ran)
    run_items-ran (work ∷ current) t =
        run_items-ran current (run_item work t)
        ∙ ap (λ ps. ps ++ current) (post_all-ran ((run work t.loop.store).1) (running work t))
        ∙ append_assoc t.ran (work ∷ []) current

    -- From the start of the loop on, the tasks are run in the order in which they were posted,
    -- each once: those that have been run and those that wait are the ones that were posted. One
    -- call of process_work_queue runs exactly the tasks that wait, and not the ones that these
    -- post.
    pub runs_in_order :
        {store : Store} {t : Traced Task Store}
        → Reach store t
        → (t.posted ≡ t.ran ++ t.loop.work_queue)
          × ((process_work_queue t).ran ≡ t.ran ++ t.loop.work_queue)
    unfolding process_work_queue
    runs_in_order {t = t} r = (Reach-InOrder r, run_items-ran t.loop.work_queue (swapped t))
