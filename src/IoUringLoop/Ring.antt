-- ===== src/IoUringLoop/Ring.antt =====
-- common/io_uring_loop.cpp: the requests that are submitted to the ring, and the loop that runs
-- their callbacks.
use vsr_kv.Common.{
  ℕ, ◌/◌, ◌%◌, ◌≡◌, Bool, true, false, Option, none, some, List, [], ◌∷◌, ◌++◌, if◌then◌else◌,
}

pub data RequestType : Type 0 where
  accept read write connect timeout eventfd : RequestType

abbrev pub is_eventfd_type : RequestType → Bool
is_eventfd_type RequestType.eventfd = true
is_eventfd_type _ = false

-- `Address` is a sockaddr_in, and `Io` and `Accept` what the two kinds of callbacks are.
module _ (Address Io Accept : Type 0) where
  pub data Callback : Type 0 where
    io_callback : Io → Callback
    accept_callback : Accept → Callback
    -- A function object without a target, which a new request has.
    empty_callback : Callback

  pub record IoRequest : Type 0 where
    pub type : RequestType
    pub callback : Callback
    pub connection : Option ℕ
    -- For a read, how far its connection's buffer reaches.
    pub size : ℕ
    pub write_buffer : List ℕ
    pub remote_address : Option Address
    pub tv_sec : ℕ
    pub tv_nsec : ℕ

  abbrev pub new_request : RequestType → Callback → IoRequest
  new_request type callback = record {
    type = type;
    callback = callback;
    connection = none;
    size = 0;
    write_buffer = [];
    remote_address = none;
    tv_sec = 0;
    tv_nsec = 0;
  }

  abbrev pub accept_request : Accept → IoRequest
  accept_request callback = new_request RequestType.accept (Callback.accept_callback callback)

  abbrev pub read_request : ℕ → ℕ → Io → IoRequest
  read_request connection size callback =
      record (new_request RequestType.read (Callback.io_callback callback)) {
        connection = some connection;
        size = size;
      }

  abbrev pub write_request : ℕ → List ℕ → Io → IoRequest
  write_request connection buffer callback =
      record (new_request RequestType.write (Callback.io_callback callback)) {
        connection = some connection;
        write_buffer = buffer;
      }

  abbrev pub connect_request : Address → Io → IoRequest
  connect_request address callback =
      record (new_request RequestType.connect (Callback.io_callback callback)) {
        remote_address = some address;
      }

  -- The duration is in nanoseconds.
  abbrev pub timeout_request : ℕ → Io → IoRequest
  timeout_request duration callback =
      record (new_request RequestType.timeout (Callback.io_callback callback)) {
        tv_sec = duration / 1000000000;
        tv_nsec = duration % 1000000000;
      }

  abbrev pub eventfd_request : IoRequest
  eventfd_request = new_request RequestType.eventfd Callback.empty_callback

  abbrev pub is_eventfd : IoRequest → Bool
  is_eventfd request = is_eventfd_type request.type

  module _ (Result : Type 0) where
    -- A call of a callback: that of an accept also gets the address.
    pub data Call : Type 0 where
      io_called : Io → Result → Call
      accept_called : Accept → Result → Option Address → Call

    -- The requests that are prepared, the ones that the kernel works on, and for the statements
    -- about them the ones that have been submitted and that have been answered.
    pub record Ring : Type 0 where
      pub prepared : List IoRequest
      pub in_flight : List IoRequest
      pub submitted : List IoRequest
      pub answered : List IoRequest
      pub called : List Call

    -- Where the ring has no entry for it, `room` is false, and a request is dropped.
    unfoldable pub submit : Bool → IoRequest → Ring → Ring
    submit room request ring =
        if room
        then record ring {
          prepared = ring.prepared ++ (request ∷ []);
          submitted = ring.submitted ++ (request ∷ []);
        }
        else ring

    unfoldable pub submit_accept : Bool → Accept → Ring → Ring
    unfolding submit
    submit_accept room callback ring = submit room (accept_request callback) ring

    unfoldable pub submit_read : Bool → ℕ → ℕ → Io → Ring → Ring
    unfolding submit
    submit_read room connection size callback ring =
        submit room (read_request connection size callback) ring

    unfoldable pub submit_write : Bool → ℕ → List ℕ → Io → Ring → Ring
    unfolding submit
    submit_write room connection buffer callback ring =
        submit room (write_request connection buffer callback) ring

    unfoldable pub submit_connect : Bool → Address → Io → Ring → Ring
    unfolding submit
    submit_connect room address callback ring = submit room (connect_request address callback) ring

    unfoldable pub submit_timeout : Bool → ℕ → Io → Ring → Ring
    unfolding submit
    submit_timeout room duration callback ring =
        submit room (timeout_request duration callback) ring

    -- Here the entry is used without a test, also where there is none.
    unfoldable pub post_eventfd_read : Bool → Ring → Option Ring
    unfolding submit
    post_eventfd_read room ring = if room then some (submit true eventfd_request ring) else none

    -- The visit of the callback; one without a target throws.
    abbrev pub call_of : Callback → Option Address → Result → Option Call
    call_of (Callback.io_callback callback) address res = some (Call.io_called callback res)
    call_of (Callback.accept_callback callback) address res =
        some (Call.accept_called callback res address)
    call_of Callback.empty_callback address res = none

    -- A round of the loop over the completions, for a request that has left the ring.
    unfoldable pub complete : Bool → IoRequest → Result → Ring → Option Ring
    unfolding post_eventfd_read
    complete room request res ring =
        let ring1 = record ring { answered = ring.answered ++ (request ∷ []) } in
        if is_eventfd request
        then post_eventfd_read room ring1
        else elim (call_of request.callback request.remote_address res) [
          | none ↦ none
          | some call ↦ some (record ring1 { called = ring.called ++ (call ∷ []) })
        ]

    abbrev pub empty_ring : Ring
    empty_ring = record {
      prepared = [];
      in_flight = [];
      submitted = [];
      answered = [];
      called = [];
    }

    abbrev pub without : List IoRequest → List IoRequest → Ring → Ring
    without before after ring = record ring { in_flight = before ++ after }

    -- What is done in `run`: the callbacks submit, the entries go to the kernel, and the kernel
    -- answers a request, whichever it has.
    pub data Step : Ring → Ring → Type 0 where
      accepts :
          (ring : Ring) (room : Bool) (callback : Accept)
          → Step ring (submit_accept room callback ring)
      reads :
          (ring : Ring) (room : Bool) (connection size : ℕ) (callback : Io)
          → Step ring (submit_read room connection size callback ring)
      writes :
          (ring : Ring) (room : Bool) (connection : ℕ) (buffer : List ℕ) (callback : Io)
          → Step ring (submit_write room connection buffer callback ring)
      connects :
          (ring : Ring) (room : Bool) (address : Address) (callback : Io)
          → Step ring (submit_connect room address callback ring)
      times :
          (ring : Ring) (room : Bool) (duration : ℕ) (callback : Io)
          → Step ring (submit_timeout room duration callback ring)
      waits :
          (ring : Ring)
          → Step ring (record ring { prepared = []; in_flight = ring.in_flight ++ ring.prepared })
      completes :
          (ring next : Ring) (before : List IoRequest) (request : IoRequest)
          (after : List IoRequest) (room : Bool) (res : Result)
          → ring.in_flight ≡ before ++ (request ∷ after)
          → complete room request res (without before after ring) ≡ some next
          → Step ring next

    pub data Reach : Ring → Type 0 where
      started : (ring : Ring) → post_eventfd_read true empty_ring ≡ some ring → Reach ring
      next : {r s : Ring} → Reach r → Step r s → Reach s
