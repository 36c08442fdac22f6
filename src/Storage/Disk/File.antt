-- ===== src/Storage/Disk/File.antt =====
-- The data file of a cached resource, as src/storage/disk.rs uses it: a sparse file, written at an
-- offset and never truncated. A hole reads as zero.
pub mod Origin
use video_proxy_server.Prelude.{ℕ, zero, suc, Option, none, some, List, [], ◌∷◌}

abbrev pub Bytes : Type 0
Bytes = List ℕ

-- A file that is not there holds nothing.
abbrev pub content : Option Bytes → Bytes
content none = []
content (some bytes) = bytes

overlay : Bytes → Bytes → Bytes
overlay [] file = file
overlay (b ∷ bytes) [] = b ∷ overlay bytes []
overlay (b ∷ bytes) (x ∷ file) = b ∷ overlay bytes file

seek_overlay : ℕ → Bytes → Bytes → Bytes
unfolding overlay
seek_overlay zero bytes file = overlay bytes file
seek_overlay (suc n) bytes [] = 0 ∷ seek_overlay n bytes []
seek_overlay (suc n) bytes (x ∷ file) = x ∷ seek_overlay n bytes file

-- `seek(SeekFrom::Start(offset))` and writes; a seek alone does not make the file longer.
unfoldable pub write_at : Bytes → ℕ → Bytes → Bytes
unfolding seek_overlay
write_at file offset [] = file
write_at file offset (b ∷ bytes) = seek_overlay offset (b ∷ bytes) file
