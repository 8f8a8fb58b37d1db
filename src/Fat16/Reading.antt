-- ===== src/Fat16/Reading.antt =====
-- fat16_read of an open file.
use bimble_os.Common.{
  ℕ, suc, ◌+◌, ◌*◌, ◌≤◌, ◌<◌, ◌≡◌, refl, none, some, List, ◌∷◌, length, take, drop,
}
use mathlib.Core.List.{append-nil}
use bimble_os.Common.Status.{done, ok}
use bimble_os.Heap.Kernel.{kfree}
use bimble_os.Fat16.{FatH, FatDirectory, DirectoryItem, FatPrivate, held, file_item, int_limit}
use bimble_os.Fat16.Chain.{mounted, cluster_size, IsWalk, contents}
use bimble_os.Fat16.Clusters.{fat16_get_first_cluster}
use bimble_os.Fat16.Files.{
  fat16_read, read_members, file_of, fat16_close, fat16_free_file_descriptor, put,
}
use bimble_os.Fat16.Items.{fat16_fat_item_free}
use bimble_os.Fat16.Read.{fat16_read_internal_lem}
use bimble_os.Fat16.Volume.{Fat}

-- An open file: the addresses of the private data, of the item and of its copy, the directory's item,
-- the position in the file, and the private data.
pub record IsOpen (s : Fat) (private : ℕ) (item : DirectoryItem) (pos : ℕ) (fs : FatPrivate)
    : Type 0 where
  pub at : ℕ
  pub at_item : ℕ
  pub at_copy : ℕ
  pub on : s.fs_private ≡ held at fs
  pub entry :
      s.open_files private
      ≡ some (record { item = held at_item (file_item (held at_copy item)); pos = pos })

module _ (sectors : ℕ → ℕ → ℕ) (h : FatH) (root : FatDirectory) where
  -- What one read of an open file does: the bytes, and the positions of the streams.
  pub read_open :
      (s : Fat) (private : ℕ) (item : DirectoryItem) (n size q k f d : ℕ) (cs : List ℕ)
      (o : IsOpen s private item (q * cluster_size h) (mounted h root k f d))
      → IsWalk sectors h root (fat16_get_first_cluster item) cs
      → 0 < cluster_size h
      → q + n ≡ length cs
      → size ≤ suc n * cluster_size h
      → q * cluster_size h + size < int_limit
      → (k' : ℕ) × (f' : ℕ) × (fat16_read sectors private size 1 s
          ≡ some (
            (
              ok 1,
              take size (contents sectors h root (drop q (fat16_get_first_cluster item ∷ cs))),
            ),
            record s { fs_private = held (o.at) (mounted h root k' f' d) },
          ))
  unfolding fat16_read read_members file_of
  read_open s private item n size q k f d cs o ch pos count le int =
      let c = fat16_get_first_cluster item in
      let (k', f', e) =
        fat16_read_internal_lem sectors h root n size q c cs k f d ch pos count le int in
      let whole = append-nil (take size (contents sectors h root (drop q (c ∷ cs)))) in
      (k', f', rw (fat16_read, o.entry, o.on, read_members, e, whole) refl)

  -- Where clusters that lie in the disk's first 2 ^ 31 bytes follow one another as the code looks them up,
  -- reading one member of an open file whose position is at the start of one of them, as many bytes as
  -- it and those behind it hold or fewer, up to position 2 ^ 31, succeeds and gives the bytes of these
  -- clusters in their order; the position stays, so that reading again gives the same bytes again.
  pub fat16_read_lem :
      (s : Fat) (private : ℕ) (item : DirectoryItem) (n size q k f d : ℕ) (cs : List ℕ)
      → IsOpen s private item (q * cluster_size h) (mounted h root k f d)
      → IsWalk sectors h root (fat16_get_first_cluster item) cs
      → 0 < cluster_size h
      → q + n ≡ length cs
      → size ≤ suc n * cluster_size h
      → q * cluster_size h + size < int_limit
      → (s' : Fat) × (s'' : Fat) × (fat16_read sectors private size 1 s
          ≡ some (
            (
              ok 1,
              take size (contents sectors h root (drop q (fat16_get_first_cluster item ∷ cs))),
            ),
            s',
          ))
        × (fat16_read sectors private size 1 s'
            ≡ some (
              (
                ok 1,
                take size (contents sectors h root (drop q (fat16_get_first_cluster item ∷ cs))),
              ),
              s'',
            ))
  fat16_read_lem s private item n size q k f d cs o ch pos count le int =
      let (k', f', e) = read_open s private item n size q k f d cs o ch pos count le int in
      let s' : Fat = record s { fs_private = held (o.at) (mounted h root k' f' d) } in
      let o' : IsOpen s' private item (q * cluster_size h) (mounted h root k' f' d) = record {
        at = o.at;
        at_item = o.at_item;
        at_copy = o.at_copy;
        on = refl;
        entry = o.entry;
      } in
      let again = read_open s' private item n size q k' f' d cs o' ch pos count le int in
      (s', record s { fs_private = held (o.at) (mounted h root (again.0) (again.1) d) }, e, again.2)

-- An open file can be closed.
pub close_open :
    (s : Fat) (private : ℕ) (item : DirectoryItem) (pos : ℕ) (fs : FatPrivate)
    → IsOpen s private item pos fs
    → (s' : Fat) × (fat16_close private s ≡ some (done, s'))
unfolding fat16_close fat16_free_file_descriptor fat16_fat_item_free
close_open s private item pos fs o = (
  record s {
    fat_kernel = kfree private (kfree (o.at_item) (kfree (o.at_copy) s.fat_kernel));
    fs_private = held (o.at) fs;
    open_files = put s.open_files private none;
  },
  rw (fat16_close, o.entry, fat16_free_file_descriptor, o.on) refl,
)
