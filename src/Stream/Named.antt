-- ===== src/Stream/Named.antt =====
-- The identifiers that the stream manager gives out.
use go_tor.Prelude.{
  ℕ, ◌<◌, ◌≡◌, ◌⊎◌, inl, inr, refl, sym, subst, ap, ◌∙◌, true, false, List, [], ◌∷◌, ◌++◌, some,
  Result, ok, err, ◌==◌, if◌then◌else◌, length, All, Bool-cases, arith,
}
use go_tor.Prelude.Subset.{elem, Distinct}
use go_tor.Prelude.Refs.{
  find, delete, ids, delete_drops, delete_keeps, Distinct-delete, All-ids-delete,
}
use go_tor.Stream.{
  Stream, Bytes, StreamManager, StreamManagerError, manager_shut, new_stream, following,
  create_stream,
}

find-delete_other :
    (id k : ℕ) (m : List (ℕ × ℕ)) → (k == id) ≡ false → find k (delete id m) ≡ find k m
unfolding find delete
find-delete_other id k [] n = refl
find-delete_other id k ((q, r) ∷ m) n =
    let ih = find-delete_other id k m n in
    elim (Bool-cases (q == id)) [
      | inl e ↦
          let d : (q == k) ≡ false = ground arith in
          subst (λ t. find k t ≡ find k ((q, r) ∷ m)) (sym (delete_drops id q r m e)) (rw d ih)
      | inr e ↦
          subst (λ t. find k t ≡ find k ((q, r) ∷ m)) (sym (delete_keeps id q r m e))
            (ap (λ t. if q == k then some r else t) ih)
    ]

-- The identifiers are distinct, not zero and below 2^16, and so is the next one.
pub record AreNames (m : StreamManager) : Type 0 where
  pub next_nonzero : 0 < m.next_stream_id
  pub next_bound : m.next_stream_id < 65536
  pub distinct : Distinct (ids m.streams)
  pub in_range : All (λ id. (0 < id) × (id < 65536)) (ids m.streams)

-- What `CreateStream` returns.
abbrev pub Creation : Type 0
Creation = List Stream × StreamManager × Result StreamManagerError ℕ

-- A manager that is shut refuses. Otherwise the new stream gets the next identifier, and is what that
-- identifier finds from now on, whatever it found before; every other identifier finds what it did.
abbrev pub Named : ℕ → ℕ → Bytes → ℕ → List Stream → StreamManager → Creation → Type 0
Named now circuit_id target port heap m r =
    ((m.is_shut ≡ true) × (r ≡ (heap, m, err manager_shut)))
    ⊎ ((m.is_shut ≡ false)
        × (r.0 ≡ heap ++ (new_stream now m.next_stream_id circuit_id target port ∷ []))
        × (r.2 ≡ ok (length heap))
        × (find m.next_stream_id r.1.streams ≡ some (length heap))
        × ((k : ℕ) → (k == m.next_stream_id) ≡ false → find k r.1.streams ≡ find k m.streams)
        × AreNames r.1)

create_shut :
    (now circuit_id port : ℕ) (target : Bytes) (heap : List Stream) (m : StreamManager)
    → m.is_shut ≡ true
    → create_stream now circuit_id target port heap m ≡ (heap, m, err manager_shut)
unfolding create_stream
create_shut now circuit_id port target heap m e = rw e refl

-- The manager after a stream was created.
abbrev added : ℕ → StreamManager → StreamManager
added r m = record m {
  streams = (m.next_stream_id, r) ∷ delete m.next_stream_id m.streams;
  next_stream_id = following m.next_stream_id;
}

create_on :
    (now circuit_id port : ℕ) (target : Bytes) (heap : List Stream) (m : StreamManager)
    → m.is_shut ≡ false
    → (create_stream now circuit_id target port heap m ≡ (
      heap ++ (new_stream now m.next_stream_id circuit_id target port ∷ []),
      added (length heap) m,
      ok (length heap),
    ))
unfolding create_stream
create_on now circuit_id port target heap m e = rw e refl

elem-ids_deleted : (id : ℕ) (m : List (ℕ × ℕ)) → elem id (ids (delete id m)) ≡ false
unfolding elem delete
elem-ids_deleted id [] = refl
elem-ids_deleted id ((k, r) ∷ m) =
    let ih = elem-ids_deleted id m in
    elim (Bool-cases (k == id)) [
      | inl e ↦ subst (λ t. elem id (ids t) ≡ false) (sym (delete_drops id k r m e)) ih
      | inr e ↦ subst (λ t. elem id (ids t) ≡ false) (sym (delete_keeps id k r m e)) (ground arith)
    ]

added-AreNames : (r : ℕ) (m : StreamManager) → AreNames m → AreNames (added r m)
unfolding following
added-AreNames r m v =
    let a = v.next_nonzero in
    let b = v.next_bound in
    record {
      next_nonzero = ground arith;
      next_bound = ground arith;
      distinct = (
        elem-ids_deleted m.next_stream_id m.streams,
        Distinct-delete m.next_stream_id m.streams v.distinct,
      );
      in_range = (
        (a, b),
        All-ids-delete (λ id. (0 < id) × (id < 65536)) m.next_stream_id m.streams v.in_range,
      );
    }

find_first : (id r : ℕ) (m : List (ℕ × ℕ)) → find id ((id, r) ∷ m) ≡ some r
unfolding find
find_first id r m = ground arith

find_later : (id k r : ℕ) (m : List (ℕ × ℕ)) → (k == id) ≡ false → find k ((id, r) ∷ m) ≡ find k m
unfolding find
find_later id k r m n = ground arith

-- A manager that is shut refuses. Otherwise the new stream gets the next identifier and is what that
-- identifier finds from now on, also when the identifier was in use: the stream that had it is no
-- longer in the map then. Every other identifier finds what it did before, and the identifiers stay
-- distinct, not zero and below 2^16.
pub create_stream-Named :
    (now circuit_id port : ℕ) (target : Bytes) (heap : List Stream) (m : StreamManager)
    → AreNames m
    → Named now circuit_id target port heap m (create_stream now circuit_id target port heap m)
create_stream-Named now circuit_id port target heap m v = elim (Bool-cases m.is_shut) [
  | inl e ↦ inl (e, create_shut now circuit_id port target heap m e)
  | inr e ↦
      subst (Named now circuit_id target port heap m)
        (sym (create_on now circuit_id port target heap m e))
        (inr (
          e,
          refl,
          refl,
          find_first m.next_stream_id (length heap) (delete m.next_stream_id m.streams),
          λ k n.
              (find_later m.next_stream_id k (length heap) (delete m.next_stream_id m.streams) n
                ∙ find-delete_other m.next_stream_id k m.streams n),
          added-AreNames (length heap) m v,
        ))
]
