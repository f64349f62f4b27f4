-- ===== src/Tests/Snapshots.antt =====
-- The theorems on the cached reader, over the submissions in memory.
use youpass_share_service.Base.Decimal.{format_int}
use youpass_share_service.Base.{
  Bytes, Int64, Option, [], arith, bytes_eq, eq_of_some-eq, erase, fun_ext, insert, lookup,
  lookup-insert, none, none≢some, refl, some, subst, sym, true, ◌∙◌, ◌∷◌, ◌≡◌, nat_eq,
  bytes_eq_instance,
}
use youpass_share_service.Domain.Error.{submission_not_found}
use youpass_share_service.Domain.Link.{ResourceType, Snapshot, resource_writing}
use youpass_share_service.Outcome.{Outcome, Post, final, ret, throw}
use youpass_share_service.Memory.Content.{Content, mark_deleted, memory_content, sample, snapshot}
use youpass_share_service.Redis.{assign}
use youpass_share_service.Redis.Snapshots.{
  CachedReader, Reader, SubmissionRepository, delete_submission, reader_snapshot, snapshot_key,
}
use youpass_share_service.Redis.Snapshots.Answers.{DeletesForGood, delete_submission_lem}
use youpass_share_service.Redis.Snapshots.Keeping.{
  AllFresh, IsSteady, ReadsBack, reader_snapshot-AllFresh, written-AllFresh,
}
use youpass_share_service.Tests.Store.{
  Store, at_key, get_text, get_text-put_text, plain_redis, put_text, store_laws,
}

abbrev marshal : Snapshot → Bytes
marshal snap =
    snap.band_score
    ∷ put_text snap.owner_name
        (put_text snap.title (put_text snap.content (put_text snap.feedback [])))

abbrev unmarshal : Bytes → Option Snapshot
unmarshal [] = none
unmarshal (score ∷ text) =
    let (owner, after_owner) = get_text text in
    let (title, after_title) = get_text after_owner in
    let (content, after_content) = get_text after_title in
    some (record {
      owner_name = owner;
      title = title;
      content = content;
      band_score = score;
      feedback = (get_text after_content).0;
    })

abbrev reader : CachedReader Store Content
reader = record {
  next = memory_content;
  redis = plain_redis;
  codec = record { marshal = marshal; unmarshal = unmarshal };
  flight = λ k f. f;
}

read_whole : (snap : Snapshot) → unmarshal (marshal snap) ≡ some snap
read_whole snap = simp (get_text-put_text)

reads_back : ReadsBack reader.codec
reads_back snap snap' e = eq_of_some-eq (sym e ∙ read_whole snap)

-- Nothing is in Redis yet.
abbrev empty_reader : Reader Store Content
empty_reader = record {
  store = [];
  source = record { owners = (101, 1) ∷ (102, 1) ∷ []; deleted = [] };
}

abbrev start_reader : Reader Store Content
start_reader = record empty_reader {
  store = (snapshot_key resource_writing 101, marshal (sample 101)) ∷ [];
}

sampled : snapshot resource_writing 101 start_reader.source ≡ ret (sample 101) start_reader.source
unfolding snapshot lookup
sampled = refl

read_only : (rt : ResourceType) (id : Int64) (k : Content) → final (snapshot rt id k) ≡ k
unfolding snapshot
read_only rt id k = ground arith

steady : IsSteady memory_content
steady rt id k rt' id' snap k₁ e =
    subst (λ (k' : Content). (k₂ : Content) × (snapshot rt' id' k' ≡ ret snap k₂))
      (sym (read_only rt id k)) (k₁, e)

one_stored :
    (b : Bytes)
    → at_key start_reader.store b
      ≡ assign (at_key []) (snapshot_key resource_writing 101) (some (marshal (sample 101))) b
unfolding lookup
one_stored b = refl

all_fresh : AllFresh reader store_laws (λ k f r. refl) start_reader
unfolding lookup
all_fresh =
    written-AllFresh reader store_laws (λ k f r. refl) resource_writing 101 (sample 101)
      empty_reader start_reader.store empty_reader.source reads_back (omega arith)
      (empty_reader.source, sampled) (λ rt id snap k e. (k, e)) (fun_ext one_stored)
      (λ rt id h raw snap at read. absurd (none≢some at))

reader_snapshot-AllFresh_example :
    Post
      (reader_snapshot reader resource_writing 101 start_reader)
      (λ snap r'.
        ((k : Content) × (snapshot resource_writing 101 start_reader.source ≡ ret snap k))
        × AllFresh reader store_laws (λ k f r. refl) r')
      (λ e r'.
        ((k : Content) × (snapshot resource_writing 101 start_reader.source ≡ throw e k))
        × AllFresh reader store_laws (λ k f r. refl) r')
reader_snapshot-AllFresh_example =
    reader_snapshot-AllFresh reader store_laws (λ k f r. refl) reads_back steady resource_writing
      101 (omega arith) start_reader all_fresh

abbrev submissions : SubmissionRepository Content
submissions = record { soft_delete = λ user id c. ret resource_writing (mark_deleted id c) }

unseen :
    (rt : ResourceType) (id : Int64) (c : Content)
    → snapshot rt id (mark_deleted id c) ≡ throw submission_not_found (mark_deleted id c)
unfolding snapshot mark_deleted
unseen rt id c = ground (arith, lookup-insert id id true c.deleted)

same_state :
    {a b : ResourceType} {c d : Content}
    → ◌≡◌ {A = Outcome Content ResourceType} (ret a c) (ret b d)
    → c ≡ d
same_state e = cc

gone_for_good : DeletesForGood submissions memory_content
gone_for_good user id rt k k' e =
    subst (λ (c : Content). (k'' : Content) × (snapshot rt id c ≡ throw submission_not_found k''))
      (same_state e) (mark_deleted id k, unseen rt id k)

abbrev deleted_reader : Reader Store Content
deleted_reader = record {
  store = [];
  source = record start_reader.source { deleted = (101, true) ∷ [] };
}

deleting_101 : delete_submission reader submissions 1 101 start_reader ≡ ret tt deleted_reader
unfolding delete_submission mark_deleted insert erase snapshot_key bytes_eq format_int
deleting_101 = refl

delete_submission_lem_example :
    (rt : ResourceType) × (k : Content) × (submissions.soft_delete 1 101 start_reader.source
      ≡ ret rt k)
    × Post
        (reader_snapshot reader rt 101 deleted_reader)
        (λ _ _. ⊥)
        (λ e _. e ≡ submission_not_found)
delete_submission_lem_example =
    delete_submission_lem reader store_laws (λ k f r. refl) submissions 1 101 start_reader
      deleted_reader gone_for_good deleting_101
