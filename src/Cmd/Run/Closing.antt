-- ===== src/Cmd/Run/Closing.antt =====
-- cmd/api/main.go: what is open when run returns, on every path.
use youpass_share_service.Base.{Bool, false, not, true, ◌↔◌, ◌≡◌, ◌⊎◌}
use youpass_share_service.Domain.Error.{Error}
use youpass_share_service.Outcome.{Outcome, Post, final, throw}
use youpass_share_service.Config.{Config}
use youpass_share_service.Datastore.{}
use youpass_share_service.Cmd.Run.{Host, Process, exit_status}

-- The process before run: nothing is open.
abbrev pub fresh : {S : Type 0} → S → Process S
fresh s = record {
  store = s;
  signals = false;
  pool = false;
  client = false;
  counter = false;
  began = false;
  requests = false;
  sound = true;
}

-- Shutdown has failed.
abbrev pub Lingers : {S : Type 0} → Host S → Type 0
Lingers {S} h = (s t : S) × (e : Error) × (h.shutdown s ≡ throw e t)

-- Nothing is open, and everything was used and closed in order, unless Shutdown has failed.
abbrev pub IsClosed : {S : Type 0} → Host S → Process S → Type 0
IsClosed h p =
    (p.signals ≡ false)
    × (p.pool ≡ false)
    × (p.client ≡ false)
    × (p.counter ≡ false)
    × ((p.sound ≡ true) ⊎ Lingers h)

-- The status is 0 exactly where run went as far as starting the server.
abbrev pub Reports : {S : Type 0} → Outcome (Process S) (Unit {0}) → Type 0
Reports o = (exit_status o ≡ 0) ↔ ((final o).began ≡ true)

module _ {S : Type 0} (h : Host S) (cfg : Config) where
  -- The process with the signals, the pool and the client open, or some of them.
  abbrev opened : S → Bool → Bool → Process S
  opened s pool client = record (fresh s) { signals = true; pool = pool; client = client }

  -- The same, with the server started or not, and with handlers at work or not.
  abbrev marked : S → Bool → Bool → Bool → Bool → Process S
  marked s pool client began requests = record (opened s pool client) {
    began = began;
    requests = requests;
    sound = not requests;
  }

  -- Where the server was started, handlers may still be at work only if Shutdown has failed.
  abbrev Began : Bool → Bool → Process S → Type 0
  Began pool client q =
      (t : S) × (b : Bool) × (q ≡ marked t pool client true b) × (b ≡ true → Lingers h)

  -- The process when the wait for a signal or the server's end is over.
  abbrev left : S → Process S
  left t = record (opened t true true) { counter = true; began = true; requests = true }

  -- What is open at the end, and the server's mark exactly where there is no error.
  abbrev Leaves : Bool → Bool → Outcome (Process S) (Unit {0}) → Type 0
  Leaves pool client o =
      Post o (λ _ q. Began pool client q) (λ _ q. (t : S) × (q ≡ marked t pool client false false))

  abbrev ended : S → Bool → Bool → Process S
  ended s began requests = record (fresh s) {
    began = began;
    requests = requests;
    sound = not requests;
  }

  abbrev Ends : Outcome (Process S) (Unit {0}) → Type 0
  Ends o =
      Post o (λ _ q. (t : S) × (b : Bool) × (q ≡ ended t true b) × (b ≡ true → Lingers h))
        (λ _ q. (t : S) × (q ≡ ended t false false))
