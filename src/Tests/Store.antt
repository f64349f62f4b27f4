-- ===== src/Tests/Store.antt =====
-- A Redis in memory and a plain codec of the links.
use youpass_share_service.Base.{
  Bytes, Dict, Option, [], ap, bytes_eq, erase, false, fun_ext, inl, inr, insert, lookup,
  lookup-erase, lookup-insert, none, refl, some, subst, suc, zero, ℕ, ◌∷◌, ◌≡◌, ◌≢◌, ◌⊎◌, nat_eq,
  bytes_eq_instance,
}
use youpass_share_service.Domain.Error.{Error, foreign}
use youpass_share_service.Domain.Link.{Time}
use youpass_share_service.Outcome.{Outcome, Post, ret, throw}
use youpass_share_service.Share.Contract.{IsFault}
use youpass_share_service.Redis.{Redis, RedisLaws}
use youpass_share_service.Redis.LinkCache.{Codec, LinkRecord, not_found_mark}
use youpass_share_service.Redis.LinkCache.Laws.{CodecLaws}
use youpass_share_service.Tests.{}

abbrev pub Store : Type 0
Store = Dict Bytes Bytes

abbrev pub fetch : Option Bytes → Store → Outcome Store Bytes
fetch none s = throw (foreign 0) s
fetch (some v) s = ret v s

abbrev pub plain_redis : Redis Store
plain_redis = record {
  nil_error = foreign 0;
  get = λ k s. fetch (lookup k s) s;
  set = λ k v ttl s. ret tt (insert k v s);
  del = λ k s. ret tt (erase k s);
}

abbrev pub at_key : Store → Bytes → Option Bytes
at_key s k = lookup k s

pub fetched :
    (k : Bytes) (s : Store) (o : Option Bytes)
    → lookup k s ≡ o
    → Post
        (fetch o s)
        (λ v s'. (at_key s k ≡ some v) × (at_key s' ≡ at_key s))
        (λ e s'.
          (((e ≡ foreign 0) × (at_key s k ≡ none)) ⊎ (IsFault e × (e ≢ foreign 0)))
          × (at_key s' ≡ at_key s))
fetched k s none e = (inl (refl, e), refl)
fetched k s (some v) e = (e, refl)

abbrev pub store_laws : RedisLaws plain_redis
store_laws = record {
  value = at_key;
  read = λ k s. fetched k s (lookup k s) refl;
  written = λ k v ttl s. fun_ext (λ d. lookup-insert k d v s);
  deleted = λ k s. fun_ext (λ d. lookup-erase k d s);
}

-- A text ends at the first zero.
abbrev pub put_text : Bytes → Bytes → Bytes
put_text [] rest = 0 ∷ rest
put_text (c ∷ s) rest = suc c ∷ put_text s rest

abbrev pub get_text : Bytes → Bytes × Bytes
get_text [] = ([], [])
get_text (zero ∷ rest) = ([], rest)
get_text (suc c ∷ s) = let (t, rest) = get_text s in (c ∷ t, rest)

pub get_text-put_text : (s rest : Bytes) → get_text (put_text s rest) ≡ (s, rest)
get_text-put_text [] rest = refl
get_text-put_text (c ∷ s) rest =
    ap (λ (p : Bytes × Bytes). (c ∷ p.0, p.1)) (get_text-put_text s rest)

abbrev number : Option Time → ℕ
number none = 0
number (some t) = suc t

abbrev time_of : ℕ → Option Time
time_of zero = none
time_of (suc t) = some t

abbrev plain_marshal : LinkRecord → Error ⊎ Bytes
plain_marshal r = inr (
    1
    ∷ r.id
    ∷ r.owner_id
    ∷ r.resource_id
    ∷ r.created_at
    ∷ number r.expires_at
    ∷ number r.deleted_at
    ∷ put_text r.code (put_text r.resource_type (put_text r.status [])))

abbrev plain_unmarshal : Bytes → Option LinkRecord
plain_unmarshal (one ∷ id ∷ owner ∷ res ∷ at ∷ exp ∷ del ∷ rest) =
    let (code, more) = get_text rest in
    let (rt, last) = get_text more in
    some (record {
      id = id;
      code = code;
      owner_id = owner;
      resource_type = rt;
      resource_id = res;
      status = (get_text last).0;
      expires_at = time_of exp;
      deleted_at = time_of del;
      created_at = at;
    })
plain_unmarshal _ = none

abbrev pub plain_codec : Codec
plain_codec = record { marshal = plain_marshal; unmarshal = plain_unmarshal }

time_of-number : (o : Option Time) → time_of (number o) ≡ o
time_of-number none = refl
time_of-number (some t) = refl

abbrev text_of : LinkRecord → Bytes
text_of r =
    1
    ∷ r.id
    ∷ r.owner_id
    ∷ r.resource_id
    ∷ r.created_at
    ∷ number r.expires_at
    ∷ number r.deleted_at
    ∷ put_text r.code (put_text r.resource_type (put_text r.status []))

written_as : (r : LinkRecord) (b : Bytes) → plain_marshal r ≡ inr b → text_of r ≡ b
written_as r b e = cc

read_plain : (r : LinkRecord) (b : Bytes) → plain_marshal r ≡ inr b → plain_unmarshal b ≡ some r
read_plain r b e =
    let same : text_of r ≡ b = written_as r b e in
    rw (← same) (simp (get_text-put_text, time_of-number))

unlike : (r : LinkRecord) → bytes_eq (text_of r) not_found_mark ≡ false
unfolding bytes_eq
unlike r = refl

pub plain_codec_laws : CodecLaws plain_codec
plain_codec_laws = record {
  read_back = read_plain;
  unmarked = λ r b e.
      subst (λ (x : Bytes). bytes_eq x not_found_mark ≡ false) (written_as r b e) (unlike r);
}
