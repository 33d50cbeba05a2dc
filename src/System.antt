-- ===== src/System.antt =====
-- The server as a whole: its state changes with each request to server/muster_api/app.py, with each
-- step of the streams of server/muster_api/stream.py, with each round of the reaper of
-- server/muster_api/reaper.py, and when keys of Valkey run out of time. The steps come in any order.
pub mod Cursors
pub mod Mail
use muster_chat.Base.{ℕ, ◌≡◌, Text}
use muster_chat.Valkey.{Valkey, Json}
use muster_chat.Identity.{Address}
use muster_chat.Auth.{Doc, Outcome}
use muster_chat.Config.{Config}
use muster_chat.Store.Keys.{inbox_key, cursor_key}
use muster_chat.Store.Deliver.{World}
use muster_chat.Reaper.{reap_once}
use muster_chat.Stream.Ownership.{Move, run_move}
use muster_chat.App.{Request, Times, Server, handle}

module _ (v : Valkey) (json : Json) (digest : Text → Text) (repr : Doc → Text)
    (ask : Text → Text → Text → Outcome) (cfg : Config) where
  open v use {Db, cell}
  open json use {Meta}

  -- the server with another database
  abbrev pub with_db : Server v → Db → Server v
  with_db s db = record s { world = record s.world { db = db } }

  -- An inbox and a cursor have no expiry, so that they do not run out of time.
  pub data Step (s : Server v) : Server v → Type 0 where
    serves : (t : Times) (req : Request) → Step s (handle v json digest repr ask cfg t req s).1
    streams :
        (addr : Address) (m : Move Meta)
        → Step s (with_db s (run_move v json cfg addr m s.world.db))
    reaps : Step s (with_db s (reap_once v s.world.db).1)
    lapses :
        (db : Db)
        → ((a : Text) → cell db (inbox_key a) ≡ cell s.world.db (inbox_key a))
        → ((a : Text) → cell db (cursor_key a) ≡ cell s.world.db (cursor_key a))
        → Step s (with_db s db)

  pub data Reach (s : Server v) : Server v → Type 0 where
    here : Reach s s
    next : {t u : Server v} → Reach s t → Step t u → Reach s u
