-- ===== src/Cmd/Run.antt =====
-- cmd/api/main.go: run, from the configuration to the end of the shutdown, and the exit status of
-- main.
pub mod Closing
use youpass_share_service.Base.{
  Bool, Bytes, List, Option, [], false, none, not, some, true, ℕ, ◌&&◌, ◌∷◌,
}
use youpass_share_service.Domain.Error.{Error}
use youpass_share_service.Outcome.{Act, Outcome, final, ignore, ret, throw}
use youpass_share_service.Config.{Config, Problem}
use youpass_share_service.Datastore.{}
use youpass_share_service.Datastore.Connecting.{
  ClientDriver, PoolDriver, connect_postgres, connect_redis,
}
use youpass_share_service.Datastore.Migrations.{Database, migrate}

-- What the process has open. `began` says that run went as far as starting the server, `requests`
-- that handlers may be at work: from then on, and until Shutdown has succeeded. `sound` says that
-- what is used or closed by run was open then, and that nothing was closed while handlers may use
-- it. The program has no such fields; they are kept for the theorems.
pub record Process (S : Type 0) : Type 0 where
  pub store : S
  pub signals : Bool
  pub pool : Bool
  pub client : Bool
  pub counter : Bool
  pub began : Bool
  pub requests : Bool
  pub sound : Bool

-- What run calls: the drivers, Gin's SetTrustedProxies, the goroutine of ViewCounter.Run, which is
-- Redis.ViewCounter.Running and which ends after stopCounter, and net/http's server, whose end is a
-- signal or the error of ListenAndServe. `joined` is errors.Join.
pub record Host (S : Type 0) : Type 0 where
  pub joined : List Problem → Error
  pub wait : ℕ → Act S (Unit {0})
  pub postgres : PoolDriver S
  pub redis : ClientDriver S
  pub database : Database S
  pub set_trusted : List Bytes → Option Error
  pub count_views : S → S
  pub listen : Act S (Unit {0})
  pub shutdown : Act S (Unit {0})
  pub drain_views : S → S

module _ {S : Type 0} where
  abbrev pub on_store : {A : Type 0} → Act S A → Act (Process S) A
  on_store m p = elim (m p.store) [
    | ret a s ↦ ret a (record p { store = s })
    | throw e s ↦ throw e (record p { store = s })
  ]

  -- A use of what must be open.
  abbrev pub needs : (Process S → Bool) → Process S → Process S
  needs is_open p = record p { sound = p.sound && is_open p }

  abbrev pub deferred :
      (Process S → Process S) → Act (Process S) (Unit {0}) → Act (Process S) (Unit {0})
  deferred cleanup m p = elim (m p) [
    | ret a q ↦ ret a (cleanup q)
    | throw e q ↦ throw e (cleanup q)
  ]

module _ {S : Type 0} (h : Host S) (cfg : Config) where
  abbrev pub close_db : Process S → Process S
  close_db p =
      let closing = needs (λ q. q.pool && not q.requests) p in
      record closing { store = h.postgres.close_pool p.store; pool = false }

  abbrev pub close_redis : Process S → Process S
  close_redis p =
      let closing = needs (λ q. q.client && not q.requests) p in
      record closing { store = h.redis.close_client p.store; client = false }

  -- `Shutdown` waits for the handlers, and returns an error where its time is up before they end.
  abbrev pub shut : Outcome S (Unit {0}) → Process S → Process S
  shut (ret _ s) p = record p { store = s; requests = false }
  shut (throw e s) p = record p { store = s }

  -- The counter takes what waits in its buffer, and flushes for the last time.
  abbrev pub drained : Process S → Process S
  drained p =
      let draining = needs (λ q. q.pool && (q.client && (q.counter && not q.requests))) p in
      record draining { store = h.drain_views draining.store; counter = false }

  -- From the router's success on: the counter's goroutine, the server, and the shutdown.
  unfoldable pub serving : Process S → Process S
  serving p =
      let started : Process S = record p {
        store = h.count_views p.store;
        counter = true;
        began = true;
        requests = true;
      } in
      let left : Process S = final (ignore (on_store h.listen) started) in
      drained (shut (h.shutdown left.store) left)

  -- From the connection to Redis on. The use cases and the adapters are values.
  unfoldable pub run_connected : Act (Process S) (Unit {0})
  unfolding serving
  run_connected p = elim (h.set_trusted cfg.trusted_proxies) [
    | some e ↦ throw e p
    | none ↦ ret tt (serving p)
  ]

  -- From the connection to PostgreSQL on.
  unfoldable pub run_migrated : Act (Process S) (Unit {0})
  unfolding run_connected
  run_migrated p = elim (on_store (migrate h.database) (needs (λ q. q.pool) p)) [
    | throw e q ↦ throw e q
    | ret _ q ↦
        elim (on_store (connect_redis h.wait h.redis cfg.redis_addr cfg.redis_password cfg.redis_db)
          q) [
            | throw e r ↦ throw e r
            | ret _ r ↦ deferred close_redis run_connected (record r { client = true })
          ]
  ]

  -- With the signals, from the first connection on.
  unfoldable pub run_notified : Act (Process S) (Unit {0})
  unfolding run_migrated
  run_notified p = elim (on_store (connect_postgres h.wait h.postgres cfg.database_url) p) [
    | throw e q ↦ throw e q
    | ret _ q ↦ deferred close_db run_migrated (record q { pool = true })
  ]

  abbrev pub stop_signals : Process S → Process S
  stop_signals p = record p { signals = false }

  unfoldable pub run : List Problem → Act (Process S) (Unit {0})
  unfolding run_notified
  run (x ∷ xs) p = throw (h.joined (x ∷ xs)) p
  run [] p = deferred stop_signals run_notified (record p { signals = true })

-- `main`: the exit status.
unfoldable pub exit_status : {S : Type 0} → Outcome S (Unit {0}) → ℕ
exit_status (ret _ s) = 0
exit_status (throw e s) = 1
