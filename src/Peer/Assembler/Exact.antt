-- ===== src/Peer/Assembler/Exact.antt =====
-- src/p2p_network.rs: what `MetadataAssembler::finish` returns has the announced size and hash.
use video_proxy_server.Prelude.{
  ℕ, zero, suc, ◌+◌, ◌-◌, ◌*◌, ◌/◌, ◌≤◌, ◌<◌, ◌≡◌, refl, ap, sym, subst, ◌∙◌, ◌⊎◌, inl, inr, min,
  true, Option, none, some, List, [], ◌∷◌, ◌==◌, ==_iff, if◌then◌else◌, length, length-append,
  get_elem?, arith, Bool-cases,
}
use video_proxy_server.Map.{nat_eq, list_eq, ◌=?◌, list_beq_iff}
use video_proxy_server.Error.{ok}
use video_proxy_server.Storage.Disk.File.{Bytes}
use video_proxy_server.Peer.Scheduler.{replicate, set}
use video_proxy_server.Peer.Assembler.{
  MetadataExtensionResponse, piece_data, reject, MetadataAssembler, metadata_piece_size, new,
  expected_size, all_some, fill, insert_at, insert, flatten, finish,
}

-- A slot holds a piece of the size that is left, at most that of a piece.
abbrev pub FitsSlot : ℕ → Option Bytes → Type 0
FitsSlot left none = Unit
FitsSlot left (some bytes) = length bytes ≡ min left metadata_piece_size

-- The slots from one on, with so many bytes left; no slot is without a byte of its own.
abbrev pub Slots : ℕ → List (Option Bytes) → Type 0
Slots left [] = left ≡ 0
Slots left (slot ∷ slots) =
    (0 < left) × FitsSlot left slot × Slots (left - metadata_piece_size) slots

Slots-replicate :
    (count left : ℕ)
    → count ≡ (left + 16383) / metadata_piece_size
    → Slots left (replicate count none)
Slots-replicate zero left h = omega arith
Slots-replicate (suc count) left h =
    (omega arith, tt, Slots-replicate count (left - metadata_piece_size) (omega arith))

-- The size that `insert` asks for is the one of the slot.
expected_at : ℕ → List (Option Bytes) → ℕ → ℕ
expected_at left slots index =
    if index + 1 == length slots then left - index * metadata_piece_size else metadata_piece_size

last_or_inner :
    (slot : Option Bytes) (slots : List (Option Bytes)) (left : ℕ)
    → Slots left (slot ∷ slots)
    → ((length slots ≡ 0) × (left ≤ metadata_piece_size))
      ⊎ ((0 < length slots) × (metadata_piece_size < left))
last_or_inner slot [] left (p, f, h) = inl (refl, omega arith)
last_or_inner slot (next ∷ slots) left (p, f, (q, _, _)) = inr (omega arith, omega arith)

Slots-set :
    (slots : List (Option Bytes)) (left index : ℕ) (bytes : Bytes)
    → Slots left slots
    → length bytes ≡ expected_at left slots index
    → Slots left (set slots index (some bytes))
unfolding expected_at
Slots-set [] left index bytes h e = h
Slots-set (slot ∷ slots) left zero bytes (p, f, h) e =
    elim (last_or_inner slot slots left (p, f, h)) [
      | inl (l, r) ↦ (p, ground arith, h)
      | inr (l, r) ↦ (p, ground arith, h)
    ]
Slots-set (slot ∷ slots) left (suc index) bytes (p, f, h) e =
    (p, f, Slots-set slots (left - metadata_piece_size) index bytes h (ground arith))

flatten-length :
    (slots : List (Option Bytes)) (left : ℕ)
    → Slots left slots
    → all_some slots ≡ true
    → length (flatten slots) ≡ left
unfolding flatten all_some
flatten-length [] left h e = omega arith
flatten-length (none ∷ slots) left h e = cc
flatten-length (some bytes ∷ slots) left (p, f, h) e = omega (
  arith,
  length-append bytes (flatten slots),
  flatten-length slots (left - metadata_piece_size) h e,
)

-- The size and the hash are those of the start, and the slots fit the size.
pub record IsValid (info_hash : Bytes) (total_size : ℕ) (a : MetadataAssembler) : Type 0 where
  pub hash : a.info_hash ≡ info_hash
  pub size : a.total_size ≡ total_size
  pub slots : Slots total_size a.pieces

module _ (info_hash : Bytes) (total_size : ℕ) (a : MetadataAssembler)
    (v : IsValid info_hash total_size a) where
  fill-IsValid :
      (index : ℕ) (bytes : Bytes) (slot : Option Bytes)
      → length bytes ≡ expected_size a index
      → IsValid info_hash total_size (fill a index bytes slot).1
  unfolding fill
  fill-IsValid index bytes none e = record {
    hash = v.hash;
    size = v.size;
    slots = Slots-set a.pieces total_size index bytes v.slots (
        unfold expected_at in
        e
        ∙ ap
            (λ (t : ℕ).
              if index + 1 == length a.pieces
              then t - index * metadata_piece_size
              else metadata_piece_size)
            v.size);
  }
  fill-IsValid index bytes (some existing) e = elim (Bool-cases (existing =? bytes)) [
    | inl same ↦ rw same v
    | inr other ↦ rw other v
  ]

  insert_at-IsValid :
      (index : ℕ) (bytes : Bytes) (slot : Option (Option Bytes))
      → IsValid info_hash total_size (insert_at a index bytes slot).1
  unfolding insert_at
  insert_at-IsValid index bytes none = v
  insert_at-IsValid index bytes (some slot) =
      elim (Bool-cases (length bytes == expected_size a index)) [
        | inl e ↦ rw e (fill-IsValid index bytes slot ((==_iff _ _).0 e))
        | inr e ↦ rw e v
      ]

  insert-IsValid :
      (response : MetadataExtensionResponse) → IsValid info_hash total_size (insert response a).1
  unfolding insert
  insert-IsValid (reject piece) = v
  insert-IsValid (piece_data index size bytes) = elim (Bool-cases (size == a.total_size)) [
    | inl e ↦ rw e (insert_at-IsValid index bytes (get_elem? a.pieces index))
    | inr e ↦ rw e v
  ]

-- The assembler after responses were given to it, whatever it said to each.
unfoldable pub insert_all : List MetadataExtensionResponse → MetadataAssembler → MetadataAssembler
insert_all [] a = a
insert_all (response ∷ responses) a = insert_all responses (insert response a).1

insert_all-IsValid :
    (info_hash : Bytes) (total_size : ℕ) (responses : List MetadataExtensionResponse)
    (a : MetadataAssembler)
    → IsValid info_hash total_size a
    → IsValid info_hash total_size (insert_all responses a)
unfolding insert_all
insert_all-IsValid info_hash total_size [] a v = v
insert_all-IsValid info_hash total_size (response ∷ responses) a v =
    insert_all-IsValid info_hash total_size responses (insert response a).1
      (insert-IsValid info_hash total_size a v response)

abbrev empty : Bytes → ℕ → MetadataAssembler
empty info_hash total_size = record {
  info_hash = info_hash;
  total_size = total_size;
  pieces = replicate ((total_size + 16383) / metadata_piece_size) none;
}

new_ok :
    (info_hash : Bytes) (total_size : ℕ) (a : MetadataAssembler)
    → new info_hash total_size ≡ ok a
    → empty info_hash total_size ≡ a
unfolding new
new_ok info_hash total_size a h = ground arith

finish_ok :
    (digest : Bytes → Bytes) (a : MetadataAssembler) (metadata : Bytes)
    → finish digest a ≡ ok metadata
    → (flatten a.pieces ≡ metadata)
      × (all_some a.pieces ≡ true)
      × (digest (flatten a.pieces) ≡ a.info_hash)
unfolding finish
finish_ok digest a metadata h = ground (arith, list_beq_iff (digest (flatten a.pieces)) a.info_hash)

-- Whatever responses an assembler has been given, if it finishes then what it returns has the
-- announced size and the hash of the torrent.
pub finish-IsExact :
    (digest : Bytes → Bytes) (info_hash : Bytes) (total_size : ℕ) (a : MetadataAssembler)
    (responses : List MetadataExtensionResponse) (metadata : Bytes)
    → new info_hash total_size ≡ ok a
    → finish digest (insert_all responses a) ≡ ok metadata
    → (length metadata ≡ total_size) × (digest metadata ≡ info_hash)
finish-IsExact digest info_hash total_size a responses metadata h f =
    let start : IsValid info_hash total_size (empty info_hash total_size) = record {
      hash = refl;
      size = refl;
      slots = Slots-replicate _ total_size refl;
    } in
    let v =
      insert_all-IsValid info_hash total_size responses a
        (subst (IsValid info_hash total_size) (new_ok info_hash total_size a h) start) in
    let (e, full, d) = finish_ok digest (insert_all responses a) metadata f in
    (
      ap length (sym e) ∙ flatten-length (insert_all responses a).pieces total_size v.slots full,
      ap digest (sym e) ∙ d ∙ v.hash,
    )
