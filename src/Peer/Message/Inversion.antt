-- ===== src/Peer/Message/Inversion.antt =====
-- src/p2p_network.rs: what the fields of a message were read from.
use video_proxy_server.Prelude.{
  ℕ, zero, suc, ◌≡◌, refl, ap, sym, ◌∙◌, true, [], ◌∷◌, ◌++◌, take, drop, All,
}
use video_proxy_server.Error.{ok_eq, Result, ok, err, ◌>>=◌}
use video_proxy_server.Strings.{is_empty}
use video_proxy_server.Storage.Disk.File.{Bytes}
use video_proxy_server.Peer.Word.{IsByte, be32, be32-from_be32}
use video_proxy_server.Peer.Message.{PeerMessage, piece, u32_at, parse_fields, parse_piece}

pub empty_eq : (body : Bytes) → is_empty body ≡ true → body ≡ []
empty_eq [] h = refl
empty_eq (b ∷ bs) h = cc

pub u32_at-ok : (bytes : Bytes) (n : ℕ) → All IsByte bytes → u32_at bytes ≡ ok n → be32 n ≡ bytes
unfolding u32_at
u32_at-ok [] n h e = cc
u32_at-ok (a ∷ []) n h e = cc
u32_at-ok (a ∷ b ∷ []) n h e = cc
u32_at-ok (a ∷ b ∷ c ∷ []) n h e = cc
u32_at-ok (a ∷ b ∷ c ∷ d ∷ []) n (ha, (hb, (hc, (hd, _)))) e =
    ap be32 (sym (ok_eq e)) ∙ be32-from_be32 a b c d ha hb hc hd
u32_at-ok (a ∷ b ∷ c ∷ d ∷ x ∷ bytes) n h e = cc

All-take : (n : ℕ) (bytes : Bytes) → All IsByte bytes → All IsByte (take n bytes)
All-take zero bytes h = tt
All-take (suc n) [] h = tt
All-take (suc n) (b ∷ bytes) (hb, h) = (hb, All-take n bytes h)

All-drop : (n : ℕ) (bytes : Bytes) → All IsByte bytes → All IsByte (drop n bytes)
All-drop zero bytes h = h
All-drop (suc n) [] h = tt
All-drop (suc n) (b ∷ bytes) (hb, h) = All-drop n bytes h

pub take-drop : (n : ℕ) (bytes : Bytes) → take n bytes ++ drop n bytes ≡ bytes
take-drop zero bytes = refl
take-drop (suc n) [] = refl
take-drop (suc n) (b ∷ bytes) = ap (λ bs. b ∷ bs) (take-drop n bytes)

drop-drop : (bytes : Bytes) → drop 4 (drop 4 bytes) ≡ drop 8 bytes
drop-drop [] = refl
drop-drop (a ∷ []) = refl
drop-drop (a ∷ b ∷ []) = refl
drop-drop (a ∷ b ∷ c ∷ []) = refl
drop-drop (a ∷ b ∷ c ∷ d ∷ bytes) = refl

-- Two words and the rest, put together again.
words_eq :
    (body : Bytes) (index begin : ℕ)
    → be32 index ≡ take 4 body
    → be32 begin ≡ take 4 (drop 4 body)
    → be32 index ++ (be32 begin ++ drop 8 body) ≡ body
words_eq body index begin hi hb =
    rw (hi, hb)
      (ap (λ bs. take 4 body ++ (take 4 (drop 4 body) ++ bs)) (sym (drop-drop body))
        ∙ ap (λ bs. take 4 body ++ bs) (take-drop 4 (drop 4 body))
        ∙ take-drop 4 body)

pub bind_ok {ℓ κ} :
    {A : Type ℓ} {B : Type κ} (r : Result A) (f : A → Result B) (b : B)
    → (r >>= f) ≡ ok b
    → (a : A) × (r ≡ ok a) × (f a ≡ ok b)
bind_ok (ok a) f b h = (a, refl, h)
bind_ok (err e) f b h = cc

pub fields_ok :
    (message : ℕ → ℕ → ℕ → PeerMessage) (body : Bytes) (m : PeerMessage)
    → All IsByte body
    → parse_fields message body ≡ ok m
    → (index begin size : ℕ) × (m ≡ message index begin size)
      × (be32 index ++ (be32 begin ++ be32 size) ≡ body)
unfolding parse_fields
fields_ok message body m h e =
    let (index, ei, e₁) = bind_ok (u32_at (take 4 body)) _ m e in
    let (begin, eb, e₂) = bind_ok (u32_at (take 4 (drop 4 body))) _ m e₁ in
    let (size, es, e₃) = bind_ok (u32_at (drop 8 body)) _ m e₂ in
    let bi = u32_at-ok _ index (All-take 4 body h) ei in
    let bb = u32_at-ok _ begin (All-take 4 (drop 4 body) (All-drop 4 body h)) eb in
    let bs = u32_at-ok _ size (All-drop 8 body h) es in
    (index, begin, size, sym (ok_eq e₃), rw bs (words_eq body index begin bi bb))

pub piece_ok :
    (body : Bytes) (m : PeerMessage)
    → All IsByte body
    → parse_piece body ≡ ok m
    → (index begin : ℕ) × (m ≡ piece index begin (drop 8 body))
      × (be32 index ++ (be32 begin ++ drop 8 body) ≡ body)
unfolding parse_piece
piece_ok body m h e =
    let (index, ei, e₁) = bind_ok (u32_at (take 4 body)) _ m e in
    let (begin, eb, e₂) = bind_ok (u32_at (take 4 (drop 4 body))) _ m e₁ in
    let bi = u32_at-ok _ index (All-take 4 body h) ei in
    let bb = u32_at-ok _ begin (All-take 4 (drop 4 body) (All-drop 4 body h)) eb in
    (index, begin, sym (ok_eq e₂), words_eq body index begin bi bb)
