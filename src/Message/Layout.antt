-- ===== src/Message/Layout.antt =====
-- The bytes of `vsr_header`, a packed structure: its members one after the other.
use vsr_kv.Common.{ℕ, zero, suc, ◌^◌, ◌≤◌, ◌<◌, ◌≡◌, refl, List, [], ◌∷◌, arith, length}
use vsr_kv.Utilities.{u128_fits, U128, u128, u64, u32}
use vsr_kv.Wire.Pod.{Pod, uint, pair, via}
use vsr_kv.Message.{Command, Operation, VsrHeader}
use native.Mathlib.Nat.{mod-eq_of_lt}

unfoldable pub get_or {ℓ} : {A : Type ℓ} → List A → ℕ → A → A
get_or [] n d = d
get_or (x ∷ xs) zero d = x
get_or (x ∷ xs) (suc n) d = get_or xs n d

get_or_past {ℓ} : {A : Type ℓ} (xs : List A) (n : ℕ) (d : A) → length xs ≤ n → get_or xs n d ≡ d
unfolding get_or
get_or_past [] n d h = refl
get_or_past (x ∷ xs) zero d h = elim h [ ]
get_or_past (x ∷ xs) (suc n) d h = get_or_past xs n d (omega arith)

unfoldable pub command_byte : Command → ℕ
command_byte Command.reserved = 0
command_byte Command.ping = 1
command_byte Command.pong = 2
command_byte Command.request = 3
command_byte Command.prepare = 4
command_byte Command.prepare_ok = 5
command_byte Command.reply = 6
command_byte Command.commit = 7
command_byte Command.start_view_change = 8
command_byte Command.do_view_change = 9
command_byte Command.start_view = 10
command_byte Command.recovery = 11
command_byte Command.recovery_response = 12
command_byte (Command.other n) = n

-- The enumerators in the order of their values.
abbrev pub enumerators : List Command
enumerators =
    Command.reserved ∷ Command.ping ∷ Command.pong ∷ Command.request ∷ Command.prepare
    ∷ Command.prepare_ok ∷ Command.reply ∷ Command.commit ∷ Command.start_view_change
    ∷ Command.do_view_change ∷ Command.start_view ∷ Command.recovery ∷ Command.recovery_response
    ∷ []

unfoldable pub command_of : ℕ → Command
unfolding get_or
command_of n = get_or enumerators n (Command.other n)

unfoldable pub operation_byte : Operation → ℕ
operation_byte Operation.reserved = 0
operation_byte Operation.set = 1
operation_byte Operation.update = 2
operation_byte Operation.get = 3
operation_byte (Operation.other n) = n

abbrev pub operations : List Operation
operations = Operation.reserved ∷ Operation.set ∷ Operation.update ∷ Operation.get ∷ []

unfoldable pub operation_of : ℕ → Operation
unfolding get_or
operation_of n = get_or operations n (Operation.other n)

abbrev pub u8 : Pod ℕ
u8 = uint 1

unfoldable pub command_pod : Pod Command
unfolding via
command_pod = via u8 command_of command_byte

unfoldable pub operation_pod : Pod Operation
unfolding via
operation_pod = via u8 operation_of operation_byte

abbrev pub Members : Type 0
Members =
    U128
    × (U128
        × (U128
            × (U128
                × (U128
                    × (ℕ
                        × (ℕ
                            × (ℕ
                                × (ℕ
                                    × (ℕ
                                        × (ℕ
                                            × (ℕ
                                                × (ℕ × (ℕ × (Command × (Operation × ℕ)))))))))))))))

abbrev pub to_header : Members → VsrHeader
to_header (a, (b, (c, (d, (e, (f, (g, (h, (i, (j, (k, (l, (m, (n, (o, (p, q)))))))))))))))) =
    record {
      checksum = a;
      checksum_body = b;
      parent = c;
      client = d;
      context = e;
      size = f;
      request = g;
      cluster = h;
      epoch = i;
      view = j;
      op = k;
      commit = l;
      offset = m;
      replica = n;
      command = o;
      operation = p;
      version = q;
    }

abbrev pub members : VsrHeader → Members
members r = (
  r.checksum,
  (
    r.checksum_body,
    (
      r.parent,
      (
        r.client,
        (
          r.context,
          (
            r.size,
            (
              r.request,
              (
                r.cluster,
                (
                  r.epoch,
                  (
                    r.view,
                    (
                      r.op,
                      (r.commit, (r.offset, (r.replica, (r.command, (r.operation, r.version))))),
                    ),
                  ),
                ),
              ),
            ),
          ),
        ),
      ),
    ),
  ),
)

unfoldable pub member_pods : Pod Members
unfolding pair u128 command_pod operation_pod
member_pods = pair u128 (
    pair u128 (
      pair u128 (
        pair u128 (
          pair u128 (
            pair u32 (
              pair u32 (
                pair u32 (
                  pair u32 (
                    pair u32 (
                      pair u64 (
                        pair u64
                          (pair u64 (pair u8 (pair command_pod (pair operation_pod u8)))))))))))))))

unfoldable pub header_pod : Pod VsrHeader
unfolding via member_pods
header_pod = via member_pods to_header members

-- `sizeof(vsr_header)`
abbrev pub header_size : ℕ
header_size = 128

pub header_pod_size : header_pod.size ≡ header_size
unfolding header_pod
header_pod_size = refl

abbrev pub CommandFits : Command → Type 0
CommandFits (Command.other n) = (13 ≤ n) × (n < 256)
CommandFits _ = Unit

abbrev pub OperationFits : Operation → Type 0
OperationFits (Operation.other n) = (4 ≤ n) × (n < 256)
OperationFits _ = Unit

abbrev pub U128Fits : U128 → Type 0
U128Fits a = (a.high < 2 ^ 64) × (a.low < 2 ^ 64)

-- Every member lies in the range of its type.
pub record HeaderFits (h : VsrHeader) : Type 0 where
  pub checksum : U128Fits h.checksum
  pub checksum_body : U128Fits h.checksum_body
  pub parent : U128Fits h.parent
  pub client : U128Fits h.client
  pub context : U128Fits h.context
  pub size : h.size < 2 ^ 32
  pub request : h.request < 2 ^ 32
  pub cluster : h.cluster < 2 ^ 32
  pub epoch : h.epoch < 2 ^ 32
  pub view : h.view < 2 ^ 32
  pub op : h.op < 2 ^ 64
  pub commit : h.commit < 2 ^ 64
  pub offset : h.offset < 2 ^ 64
  pub replica : h.replica < 256
  pub command : CommandFits h.command
  pub operation : OperationFits h.operation
  pub version : h.version < 256

pub command_wrap : (c : Command) → CommandFits c → command_pod.wrap c ≡ c
unfolding command_pod command_of command_byte
command_wrap (Command.other n) h =
    rw (mod-eq_of_lt h.1) (get_or_past enumerators n (Command.other n) h.0)
command_wrap _ h = refl

pub operation_wrap : (o : Operation) → OperationFits o → operation_pod.wrap o ≡ o
unfolding operation_pod operation_of operation_byte
operation_wrap (Operation.other n) h =
    rw (mod-eq_of_lt h.1) (get_or_past operations n (Operation.other n) h.0)
operation_wrap _ h = refl

-- A header in range is stored and read back unchanged.
pub header_wrap : (h : VsrHeader) → HeaderFits h → header_pod.wrap h ≡ h
unfolding header_pod
header_wrap h f = rw (
  u128_fits h.checksum f.checksum.0 f.checksum.1,
  u128_fits h.checksum_body f.checksum_body.0 f.checksum_body.1,
  u128_fits h.parent f.parent.0 f.parent.1,
  u128_fits h.client f.client.0 f.client.1,
  u128_fits h.context f.context.0 f.context.1,
  mod-eq_of_lt f.size,
  mod-eq_of_lt f.request,
  mod-eq_of_lt f.cluster,
  mod-eq_of_lt f.epoch,
  mod-eq_of_lt f.view,
  mod-eq_of_lt f.op,
  mod-eq_of_lt f.commit,
  mod-eq_of_lt f.offset,
  mod-eq_of_lt f.replica,
  command_wrap h.command f.command,
  operation_wrap h.operation f.operation,
  mod-eq_of_lt f.version,
)
