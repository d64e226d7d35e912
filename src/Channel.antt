-- ===== src/Channel.antt =====
-- crates/claw-channel: messages, errors, routing, deduplication and retries of channels.
pub mod Retry
pub mod Router
pub mod RouterBuilder
pub mod Dedup
pub mod DeduplicatingRouter
use claw_kernel.Prelude.{ℕ, String, Option}

-- crates/claw-channel/src/error.rs.
pub data ChannelError : Type 0 where
  connection_failed : String → ChannelError
  send_failed : String → ChannelError
  receive_failed : String → ChannelError
  auth_failed : ChannelError
  not_found : String → ChannelError
  rate_limited : ChannelError
  invalid_config : String → ChannelError
  disconnected : ChannelError

-- crates/claw-channel/src/types.rs. The metadata, a JSON value that this crate's own code only
-- stores, is left out.
pub data MessageDirection : Type 0 where
  inbound outbound : MessageDirection

pub data Platform : Type 0 where
  discord webhook stdin : Platform

pub record ChannelMessage : Type 0 where
  pub id : String
  pub channel_id : String
  pub direction : MessageDirection
  pub platform : Platform
  pub content : String
  pub sender_id : Option String
  pub thread_id : Option String
  pub timestamp_ms : ℕ
