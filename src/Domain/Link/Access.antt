-- ===== src/Domain/Link/Access.antt =====
-- link.go: when a link may be seen.
use youpass_share_service.Base.{
  Option-cases, arith, bytes_eq_iff, inl, inr, none, some, ◌↔◌, ◌≡◌, ◌≤◌,
}
use youpass_share_service.Domain.Error.{}
use youpass_share_service.Domain.Link.{Link, Time, accessible, status_active}

-- The link is not deleted, it is active, and its time, if it has one, has not passed.
pub record IsOpen (l : Link) (now : Time) : Type 0 where
  pub alive : l.deleted_at ≡ none
  pub active : l.status ≡ status_active
  pub in_time : (t : Time) → l.expires_at ≡ some t → now ≤ t

IsOpen-accessible : (l : Link) (now : Time) → IsOpen l now → accessible l now ≡ none
unfolding accessible
IsOpen-accessible l now o = elim (Option-cases l.expires_at) [
  | inl never ↦ ground (arith, o.alive, o.active, never, bytes_eq_iff l.status status_active)
  | inr (t, e) ↦
      ground (arith, o.alive, o.active, e, o.in_time t e, bytes_eq_iff l.status status_active)
]

accessible-IsOpen : (l : Link) (now : Time) → accessible l now ≡ none → IsOpen l now
unfolding accessible
accessible-IsOpen l now h = record {
  alive = ground arith;
  active = ground (arith, bytes_eq_iff l.status status_active);
  in_time = λ t e. ground arith;
}

-- `Accessible` has no objection exactly if the link is not deleted, its status is active, and the
-- time is not after its expiry, if it has one.
pub accessible_iff : (l : Link) (now : Time) → (accessible l now ≡ none) ↔ IsOpen l now
accessible_iff l now = (accessible-IsOpen l now, IsOpen-accessible l now)
