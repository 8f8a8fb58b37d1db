-- ===== src/Fat16.antt =====
-- fs/fat/fat16.h, and what the parts of fs/fat/fat16.c share. An object of the heap is kept as a value
-- beside the bytes of memory, with the address that the heap gives it. An `int` is its bit pattern.
-- Where a definition gives `none` the code uses a bad pointer, divides by 0, or does not return within
-- the rounds of a loop.
pub mod Chain
pub mod Clusters
pub mod Counting
pub mod Files
pub mod Items
pub mod Loading
pub mod Names
pub mod Opening
pub mod Read
pub mod Reading
pub mod Search
pub mod Table
pub mod Volume
mod Tests
use bimble_os.Common.{ℕ, ◌+◌, ◌*◌, Option, none, List, take, drop, get_or, leb, if◌then◌else◌}
use bimble_os.Common.Status.{Result, ok, err, eio}
use bimble_os.Disk.{DiskStream}

-- BIMBLEOS_FAT16_SIGNATURE and BIMBLEOS_FAT16_FAT_ENTRY_SIZE.
abbrev pub fat_signature : ℕ
fat_signature = 0x29

abbrev pub fat_entry_size : ℕ
fat_entry_size = 2

-- `sizeof` of the packed structs.
abbrev pub header_size : ℕ
header_size = 62

abbrev pub item_size : ℕ
item_size = 32

-- The first value that is negative as an `int`.
abbrev pub int_limit : ℕ
int_limit = 0x8000_0000

-- A `uint16_t` and a `uint32_t` at an offset, lowest byte first, and an array of bytes.
abbrev pub le16 : List ℕ → ℕ → ℕ
le16 bytes i = get_or bytes i 0 + 0x100 * get_or bytes (i + 1) 0

abbrev pub le32 : List ℕ → ℕ → ℕ
le32 bytes i = le16 bytes i + 0x1_0000 * le16 bytes (i + 2)

abbrev pub bytes_at : List ℕ → ℕ → ℕ → List ℕ
bytes_at bytes i n = take n (drop i bytes)

pub record FatHeader : Type 0 where
  pub bytes_per_sector : ℕ
  pub sectors_per_cluster : ℕ
  pub reserved_sectors : ℕ
  pub fat_copies : ℕ
  pub root_dir_entries : ℕ
  pub number_of_sectors : ℕ
  pub media_type : ℕ
  pub sectors_per_fat : ℕ
  pub sectors_per_track : ℕ
  pub number_of_heads : ℕ
  pub hidden_setors : ℕ
  pub sectors_big : ℕ

pub record FatHeaderExtended : Type 0 where
  pub drive_number : ℕ
  pub win_nt_bit : ℕ
  pub signature : ℕ
  pub volume_id : ℕ
  pub volume_id_string : List ℕ
  pub system_id_string : List ℕ

pub record FatH : Type 0 where
  pub primary_header : FatHeader
  pub extended_header : FatHeaderExtended

-- The struct of which the bytes are read. The jump instruction and the maker's name come first.
unfoldable pub fat_header : List ℕ → FatH
fat_header b = record {
  primary_header = record {
    bytes_per_sector = le16 b 11;
    sectors_per_cluster = get_or b 13 0;
    reserved_sectors = le16 b 14;
    fat_copies = get_or b 16 0;
    root_dir_entries = le16 b 17;
    number_of_sectors = le16 b 19;
    media_type = get_or b 21 0;
    sectors_per_fat = le16 b 22;
    sectors_per_track = le16 b 24;
    number_of_heads = le16 b 26;
    hidden_setors = le32 b 28;
    sectors_big = le32 b 32;
  };
  extended_header = record {
    drive_number = get_or b 36 0;
    win_nt_bit = get_or b 37 0;
    signature = get_or b 38 0;
    volume_id = le32 b 39;
    volume_id_string = bytes_at b 43 11;
    system_id_string = bytes_at b 54 8;
  };
}

pub record DirectoryItem : Type 0 where
  pub filename : List ℕ
  pub ext : List ℕ
  pub attribute : ℕ
  pub reserved : ℕ
  pub creation_time_tenths_of_a_sec : ℕ
  pub creation_time : ℕ
  pub creation_date : ℕ
  pub last_access : ℕ
  pub high_16_bits_first_cluster : ℕ
  pub last_mod_time : ℕ
  pub last_mod_date : ℕ
  pub low_16_bits_first_cluster : ℕ
  pub filesize : ℕ

unfoldable pub directory_item_of : List ℕ → DirectoryItem
directory_item_of b = record {
  filename = bytes_at b 0 8;
  ext = bytes_at b 8 3;
  attribute = get_or b 11 0;
  reserved = get_or b 12 0;
  creation_time_tenths_of_a_sec = get_or b 13 0;
  creation_time = le16 b 14;
  creation_date = le16 b 16;
  last_access = le16 b 18;
  high_16_bits_first_cluster = le16 b 20;
  last_mod_time = le16 b 22;
  last_mod_date = le16 b 24;
  low_16_bits_first_cluster = le16 b 26;
  filesize = le32 b 28;
}

-- A pointer to an object of the heap: NULL, one whose memory has been freed, or the address and
-- what lies there.
pub data Pointer (A : Type 0) : Type 0 where
  nil : Pointer A
  freed : ℕ → Pointer A
  held : ℕ → A → Pointer A

-- `item` is an array.
pub record FatDirectory : Type 0 where
  pub item : Pointer (List DirectoryItem)
  pub total : ℕ
  pub sector_pos : ℕ
  pub ending_sector_pos : ℕ

-- The constructor is the `type`.
pub data FatItem : Type 0 where
  directory_item : Pointer FatDirectory → FatItem
  file_item : Pointer DirectoryItem → FatItem

pub record FatFileDescriptor : Type 0 where
  pub item : Pointer FatItem
  pub pos : ℕ

-- A stream that is NULL is `none`.
pub record FatPrivate : Type 0 where
  pub header : FatH
  pub root_directory : FatDirectory
  pub cluster_read_stream : Option DiskStream
  pub fat_read_stream : Option DiskStream
  pub directory_stream : Option DiskStream

-- An `int` that is an error where it is negative: the only such value here is -EIO.
abbrev pub int_result : ℕ → Result ℕ
int_result w = if leb int_limit w then err eio else ok w
