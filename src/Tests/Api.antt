-- ===== src/Tests/Api.antt =====
-- The theorems on tokens and the share API, on the concrete service.
use youpass_share_service.Base.{
  Bytes, Int64, [], ap, arith, bytes_eq, codes, eq_of_some-eq, if◌then◌else◌, inl, inr, lookup, ltb,
  none, refl, some, subst, ◌*◌, ◌+◌, ◌∷◌, ◌≡◌, ◌≢◌, ◌⊎◌, nat_eq, bytes_eq_instance,
}
use youpass_share_service.Base.Decimal.{format_int}
use youpass_share_service.Domain.Error.{link_not_found, token_expired}
use youpass_share_service.Domain.Link.{Link, Time, status_disabled}
use youpass_share_service.Share.Contract.{Holds, Owns}
use youpass_share_service.Share.Coherence.{table_of}
use youpass_share_service.Token.{
  Claims, Jwt, Manager, Parsed, expired, issue, rejected, valid, verify,
}
use youpass_share_service.Token.Laws.{JwtLaws, verify-issue}
use youpass_share_service.Http.{Request}
use youpass_share_service.Http.Errors.{write_error}
use youpass_share_service.Http.Handlers.{delete_handler, resolve_handler}
use youpass_share_service.Http.Visibility.{stranger_delete}
use youpass_share_service.Http.Pages.{new_visitor, page_handler}
use youpass_share_service.Http.Pages.Visitors.{page_handler-resolve_handler, returning}
use youpass_share_service.Tests.{code_a, laws, shared, sv}
use youpass_share_service.Tests.Sharing.{shared-IsCoherent}

-- A token that is its expiry, its time of issue and its subject.
abbrev pub read_token : Bytes → Bytes → Time → Bytes → Parsed
read_token secret issuer now (exp ∷ (at ∷ subject)) =
    if ltb now exp
    then valid (record { subject = subject; issuer = issuer; issued_at = at; expires_at = exp })
    else expired
read_token secret issuer now _ = rejected

abbrev pub plain_jwt : Jwt
plain_jwt = record {
  numeric_date = λ t. t;
  sign = λ secret c. inr (c.expires_at ∷ (c.issued_at ∷ c.subject));
  parse = read_token;
}

read_signed :
    (secret : Bytes) (c : Claims) (raw : Bytes) (now : Time)
    → plain_jwt.sign secret c ≡ inr raw
    → read_token secret c.issuer now raw ≡ (if ltb now c.expires_at then valid c else expired)
read_signed secret c raw now e =
    let same : c.expires_at ∷ (c.issued_at ∷ c.subject) ≡ raw = cc in
    subst
      (λ (r : Bytes).
        read_token secret c.issuer now r ≡ (if ltb now c.expires_at then valid c else expired))
      same refl

plain_laws : JwtLaws plain_jwt
plain_laws = record { parse_signed = read_signed }

abbrev pub manager : Manager
manager = record { secret = codes "secret"; ttl = 100 }

issuing : issue plain_jwt manager 10 7 ≡ inr (110 ∷ 10 ∷ codes "7", 110)
unfolding issue format_int
issuing = refl

verify-issue_example :
    verify plain_jwt manager 50 (110 ∷ 10 ∷ codes "7")
    ≡ (if ltb 50 110 then inr 7 else inl token_expired)
verify-issue_example =
    verify-issue plain_jwt plain_laws manager 10 50 7 (110 ∷ 10 ∷ codes "7") 110 refl issuing

abbrev pub visit : Request
visit = record {
  authorization = codes "bearer x";
  visitor_header = [];
  visitor_cookie = some (codes "cookie");
  user_agent = codes "Mozilla/5.0";
  client_ip = codes "10.0.0.1";
  code = code_a;
  create_body = none;
  status_body = some status_disabled;
  token_body = none;
  user_id = 1;
}

abbrev pub add_days : Time → Int64 → Time
add_days t n = t + n * 86400000000000

abbrev stranger : Request
stranger = record visit { user_id = 2 }

not_theirs : ¬ Holds (table_of sv laws shared) code_a (Owns 2)
unfolding lookup bytes_eq
not_theirs (m, at, (own, _)) = omega (arith, ap (λ (l : Link). l.owner_id) (eq_of_some-eq at), own)

stranger_delete_example :
    (((delete_handler sv add_days stranger shared).0 ≡ write_error link_not_found)
      ⊎ ((delete_handler sv add_days stranger shared).0.status ≡ 500))
    × (table_of sv laws (delete_handler sv add_days stranger shared).1 ≡ table_of sv laws shared)
stranger_delete_example =
    stranger_delete sv laws add_days stranger shared shared-IsCoherent not_theirs

-- A browser that has neither the header nor the cookie.
abbrev pub first_visit : Request
first_visit = record {
  authorization = [];
  visitor_header = [];
  visitor_cookie = none;
  user_agent = codes "Mozilla/5.0";
  client_ip = codes "10.0.0.1";
  code = code_a;
  create_body = none;
  status_body = none;
  token_body = none;
  user_id = 0;
}

fresh_id : codes "0f" ≢ []
fresh_id e = cc

page_handler-resolve_handler_example :
    let known = returning first_visit (new_visitor first_visit (codes "0f")) in
    ((page_handler sv first_visit (codes "0f") shared).0.status
      ≡ (resolve_handler sv (λ t n. t) known shared).0.status)
    × ((page_handler sv first_visit (codes "0f") shared).1
        ≡ (resolve_handler sv (λ t n. t) known shared).1)
page_handler-resolve_handler_example =
    page_handler-resolve_handler sv (λ t n. t) first_visit (codes "0f") shared fresh_id
