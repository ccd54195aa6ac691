-- ===== src/IoUringLoop/Answers.antt =====
-- Every request that is submitted to the ring is answered once.
use vsr_kv.Common.{
  ℕ, ◌+◌, ◌≡◌, refl, ap, subst, ◌∙◌, ◌⊎◌, inl, inr, Bool, true, false, ◌||◌, Option, none, some,
  List, [], ◌∷◌, ◌++◌, arith, if◌then◌else◌, Bool-cases, Option-cases, length, All, length-append,
  All-append,
}
use vsr_kv.IoUringLoop.Ring.{
  Callback, IoRequest, accept_request, read_request, write_request, connect_request,
  timeout_request, eventfd_request, is_eventfd, Call, Ring, submit, submit_accept, submit_read,
  submit_write, submit_connect, submit_timeout, post_eventfd_read, call_of, complete, empty_ring,
  without, Step, Reach,
}

abbrev pub count : {A : Type 0} → (A → Bool) → List A → ℕ
count p [] = 0
count p (a ∷ l) = (if p a then 1 else 0) + count p l

count-append : {A : Type 0} (p : A → Bool) (l m : List A) → count p (l ++ m) ≡ count p l + count p m
count-append p [] m = omega arith
count-append p (a ∷ l) m = omega (arith, count-append p l m)

count-end :
    {A : Type 0} (p : A → Bool) (l : List A) (a : A)
    → count p (l ++ (a ∷ [])) ≡ count p l + count p (a ∷ [])
count-end p l a = count-append p l (a ∷ [])

some_same : {A : Type 0} {a b : A} → some a ≡ some b → a ≡ b
some_same h = cc

none_not_some : {A : Type 0} {a : A} → none ≡ some a → ⊥
none_not_some h = cc

count-false : {A : Type 0} (p : A → Bool) (a : A) → p a ≡ false → count p (a ∷ []) ≡ 0
count-false p a e = rw e refl

count-true : {A : Type 0} (p : A → Bool) (a : A) → p a ≡ true → count p (a ∷ []) ≡ 1
count-true p a e = rw e refl

count_middle :
    {A : Type 0} (p : A → Bool) (l : List A) (a : A) (m : List A)
    → count p (l ++ (a ∷ m)) ≡ count p (l ++ m) + count p (a ∷ [])
count_middle p l a m = omega (arith, count-append p l (a ∷ m), count-append p l m)

All-without :
    {A : Type 0} (P : A → Type 0) (l : List A) (a : A) (m : List A)
    → All P (l ++ (a ∷ m))
    → P a × All P (l ++ m)
All-without P [] a m h = h
All-without P (b ∷ l) a m h = let (x, y) = All-without P l a m h.1 in (x, (h.0, y))

module _ (Address Io Accept : Type 0) where
  abbrev Request : Type 0
  Request = IoRequest Address Io Accept

  abbrev has_target : Callback Address Io Accept → Bool
  has_target Callback.empty_callback = false
  has_target _ = true

  -- A request that the loop can answer without an exception.
  abbrev Answerable : Request → Type 0
  Answerable request = (is_eventfd Address Io Accept request || has_target request.callback) ≡ true

  module _ (Result : Type 0) where
    abbrev TheRing : Type 0
    TheRing = Ring Address Io Accept Result

    -- One read of the eventfd is under way, each request that has been submitted is under way or
    -- answered, as often as it was submitted, and a callback has been called for each answer but
    -- those of the eventfd.
    pub record Conserved (ring : TheRing) : Type 0 where
      pub armed :
          count (is_eventfd Address Io Accept) ring.prepared
            + count (is_eventfd Address Io Accept) ring.in_flight
          ≡ 1
      pub once :
          (p : Request → Bool)
          → count p ring.submitted
            ≡ count p ring.answered + count p ring.prepared + count p ring.in_flight
      pub called :
          count (is_eventfd Address Io Accept) ring.answered + length ring.called
          ≡ length ring.answered
      pub prepared : All Answerable ring.prepared
      pub in_flight : All Answerable ring.in_flight

    submit-Conserved :
        (room : Bool) (request : Request) (ring : TheRing)
        → is_eventfd Address Io Accept request ≡ false
        → Answerable request
        → Conserved ring
        → Conserved (submit Address Io Accept Result room request ring)
    unfolding submit
    submit-Conserved false request ring e a c = c
    submit-Conserved true request ring e a c = record {
      armed = omega (
        arith,
        count-end (is_eventfd Address Io Accept) ring.prepared request,
        count-false (is_eventfd Address Io Accept) request e,
        c.armed,
      );
      once = λ p.
          omega (
            arith,
            count-end p ring.prepared request,
            count-end p ring.submitted request,
            c.once p,
          );
      called = c.called;
      prepared = All-append Answerable ring.prepared (request ∷ []) c.prepared (a, tt);
      in_flight = c.in_flight;
    }

    -- The callback is the one that is called, with the result, and for an accept the address.
    abbrev pub IsCallOf :
        Callback Address Io Accept
        → Option Address
        → Result
        → Call Address Io Accept Result
        → Type 0
    IsCallOf (Callback.io_callback callback) address res call = call ≡ Call.io_called callback res
    IsCallOf (Callback.accept_callback callback) address res call =
        call ≡ Call.accept_called callback res address
    IsCallOf Callback.empty_callback address res call = ⊥

    target-call :
        (callback : Callback Address Io Accept) (address : Option Address) (res : Result)
        → has_target callback ≡ true
        → (call : Call Address Io Accept Result) × (call_of Address Io Accept Result callback
              address res
            ≡ some call)
          × IsCallOf callback address res call
    target-call (Callback.io_callback callback) address res h = (_, refl, refl)
    target-call (Callback.accept_callback callback) address res h = (_, refl, refl)
    target-call Callback.empty_callback address res h = cc

    -- Another read of the eventfd is prepared, and no callback runs.
    pub record Rearmed (ring next : TheRing) : Type 0 where
      pub prepared : next.prepared ≡ ring.prepared ++ (eventfd_request Address Io Accept ∷ [])
      pub called : next.called ≡ ring.called

    -- One callback has run, that of the request.
    abbrev pub Ran : Request → Result → TheRing → TheRing → Type 0
    Ran request res ring next =
        (call : Call Address Io Accept Result) × IsCallOf request.callback request.remote_address
          res call
        × (next.called ≡ ring.called ++ (call ∷ []))

    abbrev pub Answers : Request → Result → TheRing → TheRing → Type 0
    Answers request res ring next =
        ((is_eventfd Address Io Accept request ≡ true) × Rearmed ring next)
        ⊎ ((is_eventfd Address Io Accept request ≡ false) × Ran request res ring next)

    -- The request at the middle leaves the ring.
    module _ (ring : TheRing) (before : List Request) (request : Request) (after : List Request)
        (e : ring.in_flight ≡ before ++ (request ∷ after)) (c : Conserved ring) where
      abbrev left : TheRing
      left = record (without Address Io Accept Result before after ring) {
        answered = ring.answered ++ (request ∷ []);
      }

      removed :
          (p : Request → Bool)
          → count p ring.in_flight ≡ count p (before ++ after) + count p (request ∷ [])
      removed p = ap (count p) e ∙ count_middle p before request after

      callable : Answerable request × All Answerable (before ++ after)
      callable = All-without Answerable before request after (subst (All Answerable) e c.in_flight)

      left_once :
          (p : Request → Bool)
          → count p ring.submitted
            ≡ count p (ring.answered ++ (request ∷ []))
              + count p ring.prepared
              + count p (before ++ after)
      left_once p = omega (arith, c.once p, removed p, count-end p ring.answered request)

      rearmed-Conserved :
          is_eventfd Address Io Accept request ≡ true
          → Conserved
              (submit Address Io Accept Result true (eventfd_request Address Io Accept) left)
      unfolding submit
      rearmed-Conserved h = record {
        armed = omega (
          arith,
          count-end (is_eventfd Address Io Accept) ring.prepared
              (eventfd_request Address Io Accept),
          removed (is_eventfd Address Io Accept),
          count-true (is_eventfd Address Io Accept) request h,
          c.armed,
        );
        once = λ p. omega (
          arith,
          count-end p ring.prepared (eventfd_request Address Io Accept),
          count-end p ring.submitted (eventfd_request Address Io Accept),
          left_once p,
        );
        called = omega (
          arith,
          count-end (is_eventfd Address Io Accept) ring.answered request,
          count-true (is_eventfd Address Io Accept) request h,
          length-append ring.answered (request ∷ []),
          c.called,
        );
        prepared = All-append Answerable ring.prepared (_ ∷ []) c.prepared (refl, tt);
        in_flight = callable.1;
      }

      called-Conserved :
          (call : Call Address Io Accept Result)
          → is_eventfd Address Io Accept request ≡ false
          → Conserved (record left { called = ring.called ++ (call ∷ []) })
      called-Conserved call h = record {
        armed = omega (
          arith,
          removed (is_eventfd Address Io Accept),
          count-false (is_eventfd Address Io Accept) request h,
          c.armed,
        );
        once = left_once;
        called = omega (
          arith,
          count-end (is_eventfd Address Io Accept) ring.answered request,
          count-false (is_eventfd Address Io Accept) request h,
          length-append ring.answered (request ∷ []),
          length-append ring.called (call ∷ []),
          c.called,
        );
        prepared = c.prepared;
        in_flight = callable.1;
      }

      rearmed_when :
          (room : Bool) (next : TheRing)
          → is_eventfd Address Io Accept request ≡ true
          → post_eventfd_read Address Io Accept Result room left ≡ some next
          → Conserved next
      unfolding post_eventfd_read
      rearmed_when false next x h = absurd (none_not_some h)
      rearmed_when true next x h = subst Conserved (some_same h) (rearmed-Conserved x)

      complete-Conserved :
          (room : Bool) (res : Result) (next : TheRing)
          → complete Address Io Accept Result room request res
              (without Address Io Accept Result before after ring)
            ≡ some next
          → Conserved next
      unfolding complete
      complete-Conserved room res next h =
          elim (Bool-cases (is_eventfd Address Io Accept request)) [
            | inl x ↦ rearmed_when room next x (rw (x, complete) at h)
            | inr x ↦
                elim (Option-cases
                  (call_of Address Io Accept Result request.callback request.remote_address res)) [
                    | inl y ↦ absurd (none_not_some (rw (x, y, complete) at h))
                    | inr (call, y) ↦
                        subst Conserved (some_same (rw (x, y, complete) at h))
                          (called-Conserved call x)
                  ]
          ]

      complete_runs :
          (res : Result)
          → (next : TheRing) × (complete Address Io Accept Result true request res
                (without Address Io Accept Result before after ring)
              ≡ some next)
            × Answers request res ring next
      unfolding complete post_eventfd_read submit
      complete_runs res = elim (Bool-cases (is_eventfd Address Io Accept request)) [
        | inl x ↦ rw (x, complete) (_, refl, inl (refl, record { prepared = refl; called = refl }))
        | inr x ↦
            let t : has_target request.callback ≡ true = ground (arith, x, callable.0) in
            let (call, y, w) = target-call request.callback request.remote_address res t in
            rw (x, y, complete) (_, refl, inr (refl, (call, w, refl)))
      ]

    waits-Conserved :
        (ring : TheRing)
        → Conserved ring
        → Conserved (record ring { prepared = []; in_flight = ring.in_flight ++ ring.prepared })
    waits-Conserved ring c = record {
      armed = omega (
        arith,
        count-append (is_eventfd Address Io Accept) ring.in_flight ring.prepared,
        c.armed,
      );
      once = λ p. omega (arith, count-append p ring.in_flight ring.prepared, c.once p);
      called = c.called;
      prepared = tt;
      in_flight = All-append Answerable ring.in_flight ring.prepared c.in_flight c.prepared;
    }

    Step-Conserved : {r s : TheRing} → Step Address Io Accept Result r s → Conserved r → Conserved s
    unfolding submit_accept submit_read submit_write submit_connect submit_timeout
    Step-Conserved (Step.accepts ring room callback) c =
        submit-Conserved room (accept_request Address Io Accept callback) ring refl refl c
    Step-Conserved (Step.reads ring room connection size callback) c =
        submit-Conserved room (read_request Address Io Accept connection size callback) ring refl
          refl c
    Step-Conserved (Step.writes ring room connection buffer callback) c =
        submit-Conserved room (write_request Address Io Accept connection buffer callback) ring refl
          refl c
    Step-Conserved (Step.connects ring room address callback) c =
        submit-Conserved room (connect_request Address Io Accept address callback) ring refl refl c
    Step-Conserved (Step.times ring room duration callback) c =
        submit-Conserved room (timeout_request Address Io Accept duration callback) ring refl refl c
    Step-Conserved (Step.waits ring) c = waits-Conserved ring c
    Step-Conserved (Step.completes ring next before request after room res e h) c =
        complete-Conserved ring before request after e c room res next h

    started-Conserved :
        (ring : TheRing)
        → post_eventfd_read Address Io Accept Result true (empty_ring Address Io Accept Result)
          ≡ some ring
        → Conserved ring
    unfolding post_eventfd_read submit
    started-Conserved ring h = subst Conserved (some_same h) (record {
      armed = refl;
      once = λ p. omega arith;
      called = omega arith;
      prepared = (refl, tt);
      in_flight = tt;
    })

    Reach-Conserved : {ring : TheRing} → Reach Address Io Accept Result ring → Conserved ring
    Reach-Conserved (Reach.started ring h) = started-Conserved ring h
    Reach-Conserved (Reach.next r s) = Step-Conserved s (Reach-Conserved r)

    -- From the start of the loop on: one read of the eventfd is under way, each request is under
    -- way or answered exactly as often as it was submitted, and a callback has been called for
    -- each answer but those of the eventfd. While the ring has room for an entry, the answer to
    -- any request that is under way ends without an exception: the answer to a read of the
    -- eventfd prepares the next read, and any other calls the callback of its request, once, with
    -- the result.
    pub requests_answered :
        (ring : TheRing) (before : List Request) (request : Request) (after : List Request)
        (res : Result)
        → Reach Address Io Accept Result ring
        → ring.in_flight ≡ before ++ (request ∷ after)
        → Conserved ring
          × ((next : TheRing) × (complete Address Io Accept Result true request res
                  (without Address Io Accept Result before after ring)
                ≡ some next)
              × Answers request res ring next)
    requests_answered ring before request after res r e =
        let c = Reach-Conserved r in (c, complete_runs ring before request after e c res)
