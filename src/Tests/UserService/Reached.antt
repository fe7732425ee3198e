-- ===== src/Tests/UserService/Reached.antt =====
-- What a request reaches from empty tables.
use service_oriented_hw.Common.{refl, some, []}
use service_oriented_hw.UserService.{Db, Session}
use service_oriented_hw.UserService.Handlers.{RegisterRequest}
use service_oriented_hw.UserService.Router.{register, serve, here, next}
use service_oriented_hw.UserService.Router.Sound.{IsIntact}
use service_oriented_hw.UserService.Router.Accounts.{Accounts, Reach-Accounts}
use service_oriented_hw.Tests.UserService.{toy, service, calm}

abbrev empty_db : Db
empty_db = record { users = []; refresh_tokens = [] }

abbrev blank : Session
blank = record { db = empty_db; calls = 0 }

abbrev sign_up : RegisterRequest
sign_up = record { email = "bob@example.com"; password = "correct horse"; role = "" }

abbrev signed_up : Db
signed_up = (serve toy service (register (some sign_up)) calm blank).1.db

Reach-Accounts_example : Accounts toy service signed_up × IsIntact signed_up
Reach-Accounts_example =
    Reach-Accounts toy service empty_db signed_up (record { emails = tt; hashes = tt; owners = tt })
      tt (next here (register (some sign_up)) calm blank refl refl)
