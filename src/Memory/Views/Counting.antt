-- ===== src/Memory/Views/Counting.antt =====
-- memstore.go, ViewTracker: the counters against the views that were tracked.
use youpass_share_service.Base.{
  All, Bool, Bool-cases, Bytes, Int64, List, [], add64, ap, arith, bytes_eq, bytes_eq_iff, eqb,
  eqb_iff, false, if◌then◌else◌, inl, inr, insert, length, length-insert, lookup, lookup-insert,
  not, refl, true, ℕ, ◌%◌, ◌&&◌, ◌<◌, ◌^◌, ◌||◌, ◌∷◌, ◌≡◌, nat_eq, bytes_eq_instance,
}
use youpass_share_service.Base.Decimal.{colon-IsBreak, numbered_injective}
use youpass_share_service.Outcome.{ret}
use youpass_share_service.Domain.Link.{is_set}
use youpass_share_service.Memory.Views.{
  Views, is_seen, new_views, pending_of, seen_key, track, visitors, waiting,
}

-- The views of links by visitors, the latest first.
abbrev pub History : Type 0
History = List (Int64 × Bytes)

-- The tracker after the views.
unfoldable pub track_all : History → Views
track_all [] = new_views
track_all ((id, v) ∷ es) = track id v (track_all es)

abbrev pub among : Bytes → List Bytes → Bool
among v [] = false
among v (x ∷ xs) = bytes_eq x v || among v xs

-- The different visitors of a link.
unfoldable pub visitors_of : Int64 → History → List Bytes
visitors_of id [] = []
visitors_of id ((i, v) ∷ es) =
    let rest = visitors_of id es in if eqb i id && not (among v rest) then v ∷ rest else rest

abbrev Are64 : History → Type 0
Are64 es = All (λ (e : Int64 × Bytes). e.0 < 2 ^ 64) es

-- The counters of link id are those of its visitors vs.
record Counts (id : Int64) (vs : List Bytes) (t : Views) : Type 0 where
  waits : waiting id t ≡ length vs % 2 ^ 64
  count : length (visitors id t) ≡ length vs
  members : (v : Bytes) → is_set (lookup v (visitors id t)) ≡ among v vs
  marks : (v : Bytes) → is_seen (seen_key id v) t ≡ among v vs

new_views-Counts : (id : Int64) → Counts id [] new_views
unfolding new_views lookup
new_views-Counts id = record { waits = refl; count = refl; members = λ v. refl; marks = λ v. refl }

seen_key-other :
    (i j : Int64) (v w : Bytes)
    → i < 2 ^ 64
    → j < 2 ^ 64
    → bytes_eq (seen_key i v) (seen_key j w) ≡ (eqb i j && bytes_eq v w)
unfolding seen_key
seen_key-other i j v w hi hj = ground (
  arith,
  numbered_injective b':' i j v w colon-IsBreak hi hj,
  bytes_eq_iff (seen_key i v) (seen_key j w),
  bytes_eq_iff v w,
)

visitors-track :
    (id i : Int64) (v : Bytes) (t : Views)
    → visitors id (track i v t) ≡ (if eqb i id then insert v true (visitors i t) else visitors id t)
unfolding track
visitors-track id i v t = ground (arith, lookup-insert i id (insert v true (visitors i t)) t.unique)

is_seen-track :
    (k : Bytes) (i : Int64) (v : Bytes) (t : Views)
    → is_seen k (track i v t) ≡ (bytes_eq (seen_key i v) k || is_seen k t)
unfolding track
is_seen-track k i v t =
    ground (arith, lookup-insert (seen_key i v) k true t.seen, bytes_eq_iff (seen_key i v) k)

waiting-track :
    (id i : Int64) (v : Bytes) (t : Views)
    → waiting id (track i v t)
      ≡ (if eqb i id && not (is_seen (seen_key i v) t) then add64 (waiting i t) 1 else waiting id t)
unfolding track
waiting-track id i v t = ground (arith, lookup-insert i id (add64 (waiting i t) 1) t.pending)

-- A view of another link.
other_link :
    (id i : Int64) (v : Bytes) (vs : List Bytes) (t : Views)
    → id < 2 ^ 64
    → i < 2 ^ 64
    → eqb i id ≡ false
    → Counts id vs t
    → Counts id vs (track i v t)
other_link id i v vs t hid hi off c = record {
  waits = ground (arith, waiting-track id i v t, c.waits);
  count = rw (visitors-track, off) c.count;
  members = λ w. rw (visitors-track, off) (c.members w);
  marks = λ w.
      ground
        (arith, is_seen-track (seen_key id w) i v t, seen_key-other i id v w hi hid, c.marks w);
}

-- A view of the link by someone.
this_link :
    (id : Int64) (v : Bytes) (vs : List Bytes) (t : Views)
    → id < 2 ^ 64
    → Counts id vs t
    → Counts id (if not (among v vs) then v ∷ vs else vs) (track id v t)
this_link id v vs t hid c = record {
  waits = ground (arith, waiting-track id id v t, c.waits, c.marks v);
  count =
      ground (
        arith,
        visitors-track id id v t,
        length-insert v true (visitors id t),
        c.count,
        c.members v,
      );
  members = λ w. ground (
    arith,
    visitors-track id id v t,
    lookup-insert v w true (visitors id t),
    c.members w,
    c.members v,
    bytes_eq_iff v w,
  );
  marks = λ w. ground (
    arith,
    is_seen-track (seen_key id w) id v t,
    seen_key-other id id v w hid hid,
    c.marks w,
    c.marks v,
    bytes_eq_iff v w,
  );
}

track_all-Counts :
    (id : Int64) (es : History)
    → id < 2 ^ 64
    → Are64 es
    → Counts id (visitors_of id es) (track_all es)
unfolding track_all visitors_of
track_all-Counts id [] hid h = new_views-Counts id
track_all-Counts id ((i, v) ∷ es) hid h =
    let c = track_all-Counts id es hid h.1 in
    elim (Bool-cases (eqb i id)) [
      | inl same ↦
          rw (same, (eqb_iff i id).0 same) (this_link id v (visitors_of id es) (track_all es) hid c)
      | inr off ↦ rw off (other_link id i v (visitors_of id es) (track_all es) hid h.0 off c)
    ]

-- After any sequence of `Track` calls on a new tracker, with int64 link IDs, `Pending` of a link
-- gives the number of its different visitors, modulo 2 ^ 64, as the views that wait, and that
-- number as today's viewers.
pub pending_of_lem :
    (id : Int64) (es : History)
    → id < 2 ^ 64
    → All (λ (e : Int64 × Bytes). e.0 < 2 ^ 64) es
    → pending_of id (track_all es)
      ≡ ret (length (visitors_of id es) % 2 ^ 64, length (visitors_of id es)) (track_all es)
unfolding pending_of
pending_of_lem id es hid h =
    let c = track_all-Counts id es hid h in
    ap (λ (p : Int64 × Int64). ret p (track_all es)) (pair c.waits c.count)
  where
    pair : {a b c d : ℕ} → a ≡ b → c ≡ d → ◌≡◌ {A = ℕ × ℕ} (a, c) (b, d)
    pair p q = cc
