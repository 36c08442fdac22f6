-- ===== src/Storage/Disk/Soundness/Files.antt =====
-- The data file of one key changes, and the cache stays truthful.
use video_proxy_server.Prelude.{ℕ, String, ◌≡◌, ◌≢◌, Option, Bool-cases, inl, inr}
use video_proxy_server.Map.{nat_eq, list_eq, string_eq, ◌=?◌, =?-refl}
use video_proxy_server.Storage.Ranges.{Ranges}
use video_proxy_server.Storage.Disk.File.{Bytes}
use video_proxy_server.Storage.Disk.Store.{
  System, Disk, FilePath, update, get_file_path, set_data_file,
}
use video_proxy_server.Storage.Disk.Soundness.{IsSound, Holds}

pub update_self {ℓ} : {V : Type ℓ} (p : FilePath) (v : V) (f : FilePath → V) → update p v f p ≡ v
update_self p v f = rw (=?-refl p)

pub update_ne {ℓ} :
    {V : Type ℓ} (p q : FilePath) (v : V) (f : FilePath → V) → p ≢ q → update p v f q ≡ f q
update_ne p q v f h = elim (Bool-cases (p =? q)) [
  | inl e ↦ absurd (h ((list_eq.beq_iff p q).0 e))
  | inr e ↦ rw e
]

module _ (sys : System) (key : String) (origin : ℕ → ℕ) where
  -- The new content holds what the old one held.
  pub set_data_file_self :
      (file : Option Bytes) (d : Disk sys)
      → ((completed : Ranges)
          → Holds origin completed (d.data_files (get_file_path sys key))
          → Holds origin completed file)
      → IsSound sys key origin d
      → IsSound sys key origin (set_data_file sys key file d)
  unfolding set_data_file
  set_data_file_self file d keep s = record {
    stored = λ blob m e f.
        rw (update_self (get_file_path sys key) file d.data_files)
          (keep m.completed (s.stored blob m e f));
    indexed = λ m e.
        rw (update_self (get_file_path sys key) file d.data_files)
          (keep m.completed (s.indexed m e));
  }

  pub set_data_file_ne :
      (j : String) (file : Option Bytes) (d : Disk sys)
      → get_file_path sys j ≢ get_file_path sys key
      → IsSound sys key origin d
      → IsSound sys key origin (set_data_file sys j file d)
  unfolding set_data_file
  set_data_file_ne j file d ne s = record {
    stored = λ blob m e f.
        rw (update_ne (get_file_path sys j) (get_file_path sys key) file d.data_files ne)
          (s.stored blob m e f);
    indexed = λ m e.
        rw (update_ne (get_file_path sys j) (get_file_path sys key) file d.data_files ne)
          (s.indexed m e);
  }

-- What is put there is there.
pub set_data_file-data_files :
    (sys : System) (key : String) (file : Option Bytes) (d : Disk sys)
    → (set_data_file sys key file d).data_files (get_file_path sys key) ≡ file
unfolding set_data_file
set_data_file-data_files sys key file d = update_self (get_file_path sys key) file d.data_files
