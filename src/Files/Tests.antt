-- ===== src/Files/Tests.antt =====
-- The theorems of the descriptors at a file system with one file.
use os_dev_mtk.Base.{
  ℕ, suc, ◌*◌, ◌%◌, ◌≡◌, ◌≢◌, refl, none, some, List, [], ◌∷◌, ◌++◌, replicate, pos, ne, set,
}
use os_dev_mtk.Memory.{memcmp}
use os_dev_mtk.Text.{strlen, strnlen, strncmp, isdigit, atoic}
use os_dev_mtk.PathParser.{
  pparser_parse, get_drive_by_path, path_valid_format, parse_parts, pparser_get_path_part,
}
use os_dev_mtk.Disk.{BlockDevice, sector_size}
use os_dev_mtk.Disk.Read.{slice}
use os_dev_mtk.Fat16.Layout.{FatPrivate, FatFileDescriptor, file_item}
use os_dev_mtk.Files.{
  FileSystem, FileDescriptor, Descriptors, opening, max_descriptors, file_get_fd, fopen, fclose,
  file_get_mode_by_str, open_with, file_new_descriptor, free_slot,
}
use os_dev_mtk.Files.Table.{IsTable}
use os_dev_mtk.Files.Sessions.{opens, empty, after, Reachable-IsTable}
use os_dev_mtk.Files.Reopen.{fclose-fopen, fopen-others}
use os_dev_mtk.Files.Fat.{fat16_fs}

-- Every path is one file, of which every read gives nothing.
abbrev one_file : FileSystem ℕ
one_file = record {
  resolve = λ disk. some 0;
  open_file = λ part parts mode. some (opening 7);
  read_items = λ p size nmemb. some (record { res = ne; bytes = [] });
  seek = λ p offset mode. (ne, offset);
  stat = λ p stat. (ne, stat);
  close = λ p. ne;
}

abbrev no_files : Descriptors ℕ
no_files = replicate max_descriptors none

abbrev file_name : List ℕ
file_name = b'0' ∷ b':' ∷ b'/' ∷ b'a' ∷ 0 ∷ []

abbrev first_file : FileDescriptor ℕ
first_file = record { id = 1; fs = one_file; private = 7 }

opened_first :
    fopen no_files (some one_file) file_name (b'r' ∷ 0 ∷ [])
    ≡ some (1, set no_files 0 (some first_file))
unfolding fopen pparser_parse strlen get_drive_by_path path_valid_format strnlen isdigit memcmp
    atoic parse_parts pparser_get_path_part file_get_mode_by_str strncmp open_with
    file_new_descriptor free_slot
opened_first = refl

Reachable-IsTable_example : IsTable (set no_files 0 (some first_file))
Reachable-IsTable_example =
    Reachable-IsTable (some one_file) (set no_files 0 (some first_file))
      (after empty (opens file_name (b'r' ∷ 0 ∷ []) 1 opened_first))

no_files-IsTable : IsTable no_files
no_files-IsTable = Reachable-IsTable (some one_file) no_files empty

fclose-fopen_example : fclose (set no_files 0 (some first_file)) (pos 1) ≡ (ne, no_files)
fclose-fopen_example =
    fclose-fopen no_files (set no_files 0 (some first_file)) one_file file_name (b'r' ∷ 0 ∷ []) 0
      no_files-IsTable (λ p. refl) opened_first

fopen-others_example :
    (file_get_fd no_files (pos 1) ≡ none)
    × ((k : ℕ)
        → k ≢ 0
        → file_get_fd (set no_files 0 (some first_file)) (pos (suc k))
          ≡ file_get_fd no_files (pos (suc k)))
fopen-others_example =
    fopen-others no_files (set no_files 0 (some first_file)) (some one_file) file_name
      (b'r' ∷ 0 ∷ []) 0 no_files-IsTable opened_first

abbrev image : ℕ → ℕ
image a = a % 251

abbrev drive : BlockDevice
drive k = (ne, slice image (k * sector_size) sector_size)

abbrev private : FatPrivate
private = record {
  header = record {
    bytes_per_sector = 512;
    sectors_per_cluster = 4;
    num_reserved_sectors = 1;
    num_fat_copies = 2;
    root_directory_entries = 16;
    num_sectors = 4096;
    media_type = 0xf8;
    sectors_per_fat = 8;
    sectors_per_track = 32;
    number_of_heads = 2;
    num_hidden_sectors = 0;
    num_sectors_large = 0;
    signature = 0x29;
  };
  root_directory = record { items = []; total = 0; sector_pos = 17; ending_sector_pos = 18 };
}

-- A record whose first cluster is 5.
abbrev item : List ℕ
item = replicate 26 0 ++ (5 ∷ replicate 5 0)

abbrev fat_files : Descriptors FatFileDescriptor
fat_files =
    some (record {
      id = 1;
      fs = fat16_fs drive private 70;
      private = record { item = file_item item; position = 3 };
    })
    ∷ []
