-- ===== src/Share/Rivals.antt =====
-- create.go: calls of Create for the same resources at the same time, one access to the repository
-- at a time. Each has passed the checks of its type and its owner.
pub mod Accesses
pub mod Winning
pub mod Alone
use youpass_share_service.Base.{
  Bool, Bytes, false, insert, suc, true, update, zero, ℕ, ◌≡◌, ◌≢◌, nat_eq, bytes_eq_instance,
}
use youpass_share_service.Domain.Error.{
  Error, already_shared, code_exhausted, duplicate_code, link_not_found,
}
use youpass_share_service.Domain.Link.{Link, new_link}
use youpass_share_service.Outcome.{ret, throw}
use youpass_share_service.Share.Ports.{CreateInput, LinkRepository}
use youpass_share_service.Share.Service.{max_code_retry}

-- Where a call stands: before FindByResource, in the retry loop with the attempts that are left,
-- before an Insert, before the FindByResource that follows ErrAlreadyShared, or after its return.
pub data Caller : Type 0 where
  asking : Caller
  drawing : ℕ → Caller
  inserting : ℕ → Bytes → Caller
  rereading : Caller
  returned : Link → Bool → Caller
  failed : Error → Caller

pub record Contest (R : Type 0) : Type 0 where
  pub rows : R
  pub callers : ℕ → Caller

-- The link that a call inserts under a code.
abbrev pub wanted : CreateInput → Bytes → Link
wanted input code =
    new_link code input.owner_id input.resource_type input.resource_id input.expires_at

-- One access of the call i, with the state of the rows that it leaves. The generator may give any
-- code, and an error.
pub data Access {R : Type 0} (links : LinkRepository R) (input : CreateInput) (rows : R)
    : Caller → R → Caller → Type 0 where
  existing :
      {l : Link} {s : R}
      → links.find_by_resource input.resource_type input.resource_id rows ≡ ret l s
      → Access links input rows asking s (returned l false)
  none_yet :
      {s : R}
      → links.find_by_resource input.resource_type input.resource_id rows ≡ throw link_not_found s
      → Access links input rows asking s (drawing max_code_retry)
  not_asked :
      {e : Error} {s : R}
      → links.find_by_resource input.resource_type input.resource_id rows ≡ throw e s
      → e ≢ link_not_found
      → Access links input rows asking s (failed e)
  drawn : {n : ℕ} (code : Bytes) → Access links input rows (drawing (suc n)) rows (inserting n code)
  not_drawn : {n : ℕ} (e : Error) → Access links input rows (drawing (suc n)) rows (failed e)
  exhausted : Access links input rows (drawing zero) rows (failed code_exhausted)
  inserted :
      {n : ℕ} {code : Bytes} {l : Link} {s : R}
      → links.insert (wanted input code) rows ≡ ret l s
      → Access links input rows (inserting n code) s (returned l true)
  code_taken :
      {n : ℕ} {code : Bytes} {s : R}
      → links.insert (wanted input code) rows ≡ throw duplicate_code s
      → Access links input rows (inserting n code) s (drawing n)
  resource_taken :
      {n : ℕ} {code : Bytes} {s : R}
      → links.insert (wanted input code) rows ≡ throw already_shared s
      → Access links input rows (inserting n code) s rereading
  not_inserted :
      {n : ℕ} {code : Bytes} {e : Error} {s : R}
      → links.insert (wanted input code) rows ≡ throw e s
      → e ≢ duplicate_code
      → e ≢ already_shared
      → Access links input rows (inserting n code) s (failed e)
  reread :
      {l : Link} {s : R}
      → links.find_by_resource input.resource_type input.resource_id rows ≡ ret l s
      → Access links input rows rereading s (returned l false)
  not_reread :
      {e : Error} {s : R}
      → links.find_by_resource input.resource_type input.resource_id rows ≡ throw e s
      → Access links input rows rereading s (failed e)

pub data Turn {R : Type 0} (links : LinkRepository R) (inputs : ℕ → CreateInput) (w : Contest R)
    : Contest R → Type 0 where
  access :
      (i : ℕ) {s : R} {c : Caller}
      → Access links (inputs i) w.rows (w.callers i) s c
      → Turn links inputs w (record { rows = s; callers = update w.callers i c })

pub data Turns {R : Type 0} (links : LinkRepository R) (inputs : ℕ → CreateInput) (w : Contest R)
    : Contest R → Type 0 where
  no_turn : Turns links inputs w w
  one_more :
      {u : Contest R} {v : Contest R}
      → Turns links inputs w u
      → Turn links inputs u v
      → Turns links inputs w v
