-- ===== src/Peer/Session/Settled.antt =====
-- src/p2p_network.rs: a claimed piece is given back to the scheduler, and one that is completed is
-- on disk.
use video_proxy_server.Prelude.{
  ℕ, zero, suc, ◌≡◌, ◌≢◌, refl, ap, sym, ◌∙◌, ◌⊎◌, inl, inr, ◌==◌, ==_iff, Option, some, List, [],
  ◌∷◌, get_elem?, arith, Bool-cases,
}
use video_proxy_server.Map.{nat_eq, list_eq, lookup}
use video_proxy_server.Error.{ProxyError, ok, err}
use video_proxy_server.Storage.Disk.File.{Bytes}
use video_proxy_server.Peer.Torrent.{TorrentMetadata}
use video_proxy_server.Peer.Scheduler.{
  PieceState, PieceScheduler, missing, in_flight, set, one_more, get_or, complete_piece,
  complete_at, fail, fail_at,
}
use video_proxy_server.Peer.Store.{PieceFiles}
use video_proxy_server.Peer.Session.{Session, settle}
use video_proxy_server.Peer.Session.Fetching.{Holds}

abbrev pub States : Type 0
States = List PieceState

get_elem?-set_same {ℓ} :
    {A : Type ℓ} (xs : List A) (i : ℕ) (a v : A)
    → get_elem? xs i ≡ some a
    → get_elem? (set xs i v) i ≡ some v
get_elem?-set_same [] i a v h = cc
get_elem?-set_same (x ∷ xs) zero a v h = refl
get_elem?-set_same (x ∷ xs) (suc i) a v h = get_elem?-set_same xs i a v h

get_elem?-set_other {ℓ} :
    {A : Type ℓ} (xs : List A) (i j : ℕ) (v : A) → j ≢ i → get_elem? (set xs i v) j ≡ get_elem? xs j
get_elem?-set_other [] i j v n = refl
get_elem?-set_other (x ∷ xs) zero zero v n = absurd (n refl)
get_elem?-set_other (x ∷ xs) zero (suc j) v n = refl
get_elem?-set_other (x ∷ xs) (suc i) zero v n = refl
get_elem?-set_other (x ∷ xs) (suc i) (suc j) v n = get_elem?-set_other xs i j v (λ e. n (ap suc e))

-- A piece is as it was, or was missing and is complete.
abbrev pub Moved : Option PieceState → Option PieceState → Type 0
Moved before after =
    (after ≡ before) ⊎ ((before ≡ some missing) × (after ≡ some PieceState.complete))

Moved-trans : {a b c : Option PieceState} → Moved a b → Moved b c → Moved a c
Moved-trans (inl e) (inl e') = inl (e' ∙ e)
Moved-trans (inl e) (inr (h, h')) = inr (sym e ∙ h, h')
Moved-trans (inr (h, h')) (inl e') = inr (h, e' ∙ h')
Moved-trans (inr (h, h')) (inr (k, k')) = inr (h, k')

module _ (digest : Bytes → Bytes) (metadata : TorrentMetadata) where
  -- Every complete piece is on disk, with the hash that the torrent names.
  abbrev pub AllStored : States → PieceFiles → Type 0
  AllStored states files =
      (j : ℕ) → get_elem? states j ≡ some PieceState.complete → Holds digest metadata j files

  pub record Progress (s t : Session) : Type 0 where
    pub settled : (j : ℕ) → Moved (get_elem? s.scheduler.states j) (get_elem? t.scheduler.states j)
    pub stored : AllStored s.scheduler.states s.files → AllStored t.scheduler.states t.files

  pub Progress-refl : (s : Session) → Progress s s
  Progress-refl s = record { settled = λ j. inl refl; stored = λ all. all }

  pub Progress-trans : (s t u : Session) → Progress s t → Progress t u → Progress s u
  Progress-trans s t u p q = record {
    settled = λ j. Moved-trans (p.settled j) (q.settled j);
    stored = λ all. q.stored (p.stored all);
  }

same_or_other : (j i : ℕ) → (j ≡ i) ⊎ (j ≢ i)
same_or_other j i = elim (Bool-cases (j == i)) [
  | inl e ↦ inl ((==_iff j i).0 e)
  | inr e ↦ inr (ground arith)
]

completed_lem :
    (index : ℕ) (u : PieceScheduler)
    → get_elem? u.states index ≡ some in_flight
    → complete_piece index u ≡ (record u { states = set u.states index PieceState.complete }, ok tt)
unfolding complete_piece complete_at
completed_lem index u h = rw h refl

failed_lem :
    (index : ℕ) (u : PieceScheduler)
    → get_elem? u.states index ≡ some in_flight
    → fail index u ≡ (
      record u {
        failures = set u.failures index (one_more (get_or u.failures index 0));
        states = set u.states index missing;
      },
      ok tt,
    )
unfolding fail fail_at
failed_lem index u h = rw h refl

apart : some missing ≡ some PieceState.complete → ⊥
apart h = cc

missing_or_complete {ℓ} : {P : Type ℓ} → some missing ≡ some PieceState.complete → P
missing_or_complete h = absurd (apart h)

-- A piece that was put in flight, and the state it is given next.
set_again :
    (xs ys : States) (i : ℕ) (v : PieceState)
    → get_elem? xs i ≡ some missing
    → ys ≡ set xs i in_flight
    → (get_elem? ys i ≡ some in_flight)
      × (get_elem? (set ys i v) i ≡ some v)
      × ((j : ℕ) → j ≢ i → get_elem? (set ys i v) j ≡ get_elem? xs j)
set_again xs ys i v h e =
    let f : get_elem? ys i ≡ some in_flight =
      ap (λ zs. get_elem? zs i) e ∙ get_elem?-set_same xs i missing in_flight h in
    (
      f,
      get_elem?-set_same ys i in_flight v f,
      λ j n.
          get_elem?-set_other ys i j v n
          ∙ ap (λ zs. get_elem? zs j) e
          ∙ get_elem?-set_other xs i j in_flight n,
    )

module _ (digest : Bytes → Bytes) (metadata : TorrentMetadata) (s t : Session) (index : ℕ)
    (free : get_elem? s.scheduler.states index ≡ some missing)
    (claimed : t.scheduler.states ≡ set s.scheduler.states index in_flight)
    (others : (j : ℕ) → j ≢ index → lookup j t.files ≡ lookup j s.files) where
  carry : (j : ℕ) → j ≢ index → Holds digest metadata j s.files → Holds digest metadata j t.files
  carry j n (bytes, l, h) = (bytes, others j n ∙ l, h)

  pub settle_complete :
      (u : Unit {0})
      → Holds digest metadata index t.files
      → Progress digest metadata s (settle index (ok u, t)).1
  unfolding settle
  settle_complete u held =
      let (f, same, other) =
        set_again s.scheduler.states t.scheduler.states index PieceState.complete free claimed in
      rw (completed_lem index t.scheduler f) (record {
        settled = λ j. elim (same_or_other j index) [
          | inl e ↦ rw e (inr (free, same))
          | inr n ↦ inl (other j n)
        ];
        stored = λ all j c. elim (same_or_other j index) [
          | inl e ↦ rw e held
          | inr n ↦ carry j n (all j (sym (other j n) ∙ c))
        ];
      })

  pub settle_fail : (e : ProxyError) → Progress digest metadata s (settle index (err e, t)).1
  unfolding settle
  settle_fail e =
      let (f, same, other) =
        set_again s.scheduler.states t.scheduler.states index missing free claimed in
      rw (failed_lem index t.scheduler f) (record {
        settled = λ j. elim (same_or_other j index) [
          | inl e' ↦ rw e' (inl (same ∙ sym free))
          | inr n ↦ inl (other j n)
        ];
        stored = λ all j c. elim (same_or_other j index) [
          | inl e' ↦
              missing_or_complete
                (sym same ∙ ap (get_elem? (set t.scheduler.states index missing)) (sym e') ∙ c)
          | inr n ↦ carry j n (all j (sym (other j n) ∙ c))
        ];
      })
