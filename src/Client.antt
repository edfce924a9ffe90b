-- ===== src/Client.antt =====
-- src/client_handler.c: a connection from its first request to the close of its descriptor.
pub mod Status
pub mod Pages
pub mod Round
pub mod Loop
pub mod Replies
pub mod Stays
pub mod Ends
pub mod Reports
pub mod Once
pub mod Told
pub mod ReadBy
pub mod Stream
pub mod Opened
pub mod Descriptors
pub mod Named
pub mod Truthful
use cinder_http.Prelude.{ℕ, Bool, List, Option, ℤ}
use cinder_http.Text.{Bytes, Alloc}
use cinder_http.Clock.{Timespec}
use cinder_http.Reader.{Reader, Turn}
use cinder_http.Response.{Response}
use cinder_http.Response.Transmit.{Wire}
use cinder_http.StaticFiles.FileSystem.{FileSystem}
use cinder_http.Stats.{Stats, Event}

-- The parts of a round, each of which allocates on its own.
pub data Phase : Type 0 where
  reading parsing answering paging texting deciding retrying sending : Phase

-- One round of the loop outside the program: allocation, the clock and the turns of the reader, the
-- file system, the statistics as the router finds them, and the kernel while the response is sent.
pub record Visit : Type 0 where
  pub alloc : Phase → Alloc
  pub now : Option Timespec
  pub turns : List Turn
  pub fs : FileSystem
  pub stats : Stats
  pub wire : Wire

-- What stands in the variables of the loop's body at the label `send_one`, and what was done on the
-- way: calls of the statistics, and closed descriptors. `none` is the status -1.
pub record Reply : Type 0 where
  pub response : Response
  pub version : Option Bytes
  pub omit_body : Bool
  pub status : Option ℕ
  pub response_ready : Bool
  pub keep_alive : Bool
  pub force_close : Bool
  pub events : List Event
  pub closed : List ℤ

-- Up to that label: the loop is left at once, or a reply is made.
pub data Choice : Type 0 where
  leaves : Choice
  replies : Reply → Choice

-- What a round comes to: the reader, what it received and the message that it handed out, the
-- response that has been sent whole, if one has, the bytes that have gone out, the calls of the
-- statistics, the closed descriptors, and whether another round follows.
pub record Visited : Type 0 where
  pub reader : Reader
  pub received : Bytes
  pub messages : List Bytes
  pub answer : Option Response
  pub out : Bytes
  pub events : List Event
  pub closed : List ℤ
  pub stays : Bool
