-- ===== src/Message.antt =====
-- common/vsr_message.hpp: commands, operations, the packed header and the message.
pub mod Layout
pub mod Checksum
pub mod Codec
pub mod RoundTrip
pub mod Ranges
use vsr_kv.Common.{ℕ, List, []}
use vsr_kv.Utilities.{U128, zero_u128}

-- `enum class command : byte` holds every byte; `other` stands for one that names no enumerator.
pub data Command : Type 0 where
  reserved ping pong request prepare prepare_ok reply commit : Command
  start_view_change do_view_change start_view recovery recovery_response : Command
  other : ℕ → Command

-- `enum class operation : byte`, likewise.
pub data Operation : Type 0 where
  reserved set update get : Operation
  other : ℕ → Operation

pub record VsrHeader : Type 0 where
  pub checksum : U128
  pub checksum_body : U128
  pub parent : U128
  pub client : U128
  pub context : U128
  pub size : ℕ
  pub request : ℕ
  pub cluster : ℕ
  pub epoch : ℕ
  pub view : ℕ
  pub op : ℕ
  pub commit : ℕ
  pub offset : ℕ
  pub replica : ℕ
  pub command : Command
  pub operation : Operation
  pub version : ℕ

pub record VsrMessage : Type 0 where
  pub header : VsrHeader
  pub payload : List ℕ

-- The value-initialised header of a new message.
abbrev pub zero_header : VsrHeader
zero_header = record {
  checksum = zero_u128;
  checksum_body = zero_u128;
  parent = zero_u128;
  client = zero_u128;
  context = zero_u128;
  size = 0;
  request = 0;
  cluster = 0;
  epoch = 0;
  view = 0;
  op = 0;
  commit = 0;
  offset = 0;
  replica = 0;
  command = Command.reserved;
  operation = Operation.reserved;
  version = 0;
}

-- `vsr_message()`
abbrev pub empty_message : VsrMessage
empty_message = record { header = zero_header; payload = [] }
