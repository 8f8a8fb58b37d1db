-- ===== src/Fat16/Read.antt =====
-- fat16_read_internal gives the bytes of a file's clusters.
use bimble_os.Common.{
  ℕ, zero, suc, ◌+◌, ◌-◌, ◌*◌, ◌≤◌, ◌<◌, ◌≡◌, refl, sym, ap, ◌∙◌, false, true, some, List, ◌∷◌,
  ◌++◌, inl, inr, arith, leb, Bool-cases, take, drop, length, get_or,
}
use mathlib.Core.Path.{subst}
use bimble_os.Common.Status.{done, ok}
use bimble_os.Common.Word.{add32, sub32, slt32}
use bimble_os.Disk.{diskstreamer_seek}
use bimble_os.Disk.Stream.{disk_bytes}
use bimble_os.Fat16.{FatH, FatDirectory, FatPrivate, int_limit}
use bimble_os.Fat16.Clusters.{
  fat16_read_internal_from_stream, fat16_read_internal, fat16_get_cluster_for_offset,
  size_of_cluster_bytes, fat16_cluster_to_sector,
}
use bimble_os.Fat16.Chain.{
  mounted, cluster_size, cluster_position, IsWalk, contents, stream_read_lem, chain_inside,
  IsWalk-drop, drop_step, srem-lem, take_bytes, take_more, cluster_for_offset,
}

module _ (sectors : ℕ → ℕ → ℕ) (h : FatH) (root : FatDirectory) where
  -- The last round, of at most a cluster's bytes.
  last_round :
      (fuel q r c cluster total k f d f' : ℕ)
      → r < cluster_size h
      → total ≤ cluster_size h
      → cluster_size h < int_limit
      → q * cluster_size h + r < int_limit
      → cluster_position h root cluster + r + total < int_limit
      → fat16_get_cluster_for_offset sectors (mounted h root k f d) c (q * cluster_size h + r)
        ≡ some (ok cluster, mounted h root k f' d)
      → fat16_read_internal_from_stream sectors
          (suc fuel)
          (mounted h root k f d)
          c
          (q * cluster_size h + r)
          total
        ≡ some (
          (done, disk_bytes sectors (cluster_position h root cluster + r) total),
          mounted h root (cluster_position h root cluster + r + total) f' d,
        )
  unfolding fat16_read_internal_from_stream fat16_cluster_to_sector size_of_cluster_bytes
      diskstreamer_seek
  last_round fuel q r c cluster total k f d f' small short int word inside found =
      let whole : slt32 (cluster_size h) total ≡ false = ground (arith, short, int) in
      let finished : slt32 0 (sub32 total total) ≡ false = ground (arith, short, int) in
      let remainder = srem-lem q (cluster_size h) r small word in
      let place : add32 (cluster_position h root cluster) r ≡ cluster_position h root cluster + r =
        omega arith in
      rw
        (
          fat16_read_internal_from_stream,
          found,
          whole,
          remainder,
          place,
          stream_read_lem sectors k (cluster_position h root cluster + r) total
              (omega (arith, inside)) (omega (arith, inside)),
          whole,
          finished,
        )
        refl

  -- A round of a whole cluster, which another round follows.
  full_round :
      (fuel q c cluster total k f d f' : ℕ) (bytes : List ℕ) (last : FatPrivate)
      → 0 < cluster_size h
      → cluster_size h < total
      → total < int_limit
      → q * cluster_size h + 0 + cluster_size h < int_limit
      → cluster_position h root cluster + cluster_size h < int_limit
      → fat16_get_cluster_for_offset sectors (mounted h root k f d) c (q * cluster_size h + 0)
        ≡ some (ok cluster, mounted h root k f' d)
      → fat16_read_internal_from_stream sectors fuel
          (mounted h root (cluster_position h root cluster + 0 + cluster_size h) f' d)
          c
          (q * cluster_size h + 0 + cluster_size h)
          (total - cluster_size h)
        ≡ some ((done, bytes), last)
      → fat16_read_internal_from_stream sectors
          (suc fuel)
          (mounted h root k f d)
          c
          (q * cluster_size h + 0)
          total
        ≡ some (
          (
            done,
            disk_bytes sectors (cluster_position h root cluster + 0) (cluster_size h) ++ bytes,
          ),
          last,
        )
  unfolding fat16_read_internal_from_stream fat16_cluster_to_sector size_of_cluster_bytes
      diskstreamer_seek
  full_round fuel q c cluster total k f d f' bytes last pos long int word inside found rest =
      let part : slt32 (cluster_size h) total ≡ true = ground (arith, long, int) in
      let left : sub32 total (cluster_size h) ≡ total - cluster_size h = omega (arith, long, int) in
      let unfinished : slt32 0 (total - cluster_size h) ≡ true = ground (arith, long, int) in
      let next : add32 (q * cluster_size h + 0) (cluster_size h)
          ≡ q * cluster_size h + 0 + cluster_size h =
        omega (arith, word) in
      let remainder = srem-lem q (cluster_size h) 0 pos (omega (arith, word)) in
      let place : add32 (cluster_position h root cluster) 0 ≡ cluster_position h root cluster + 0 =
        omega arith in
      rw
        (
          fat16_read_internal_from_stream,
          found,
          part,
          remainder,
          place,
          stream_read_lem sectors k (cluster_position h root cluster + 0) (cluster_size h)
              (omega arith) (omega (arith, inside)),
          part,
          left,
          next,
          rest,
          unfinished,
        )
        refl

  -- The file's bytes from a cluster on.
  abbrev from_cluster : ℕ → List ℕ → ℕ → List ℕ
  from_cluster c cs q = contents sectors h root (drop q (c ∷ cs))

  first_bytes :
      (cs : List ℕ) (q c total : ℕ)
      → q ≤ length cs
      → total ≤ cluster_size h
      → disk_bytes sectors (cluster_position h root (get_or (c ∷ cs) q 0)) total
        ≡ take total (from_cluster c cs q)
  first_bytes cs q c total le short = rw (drop_step sectors h root cs q c le) (
      sym (
        take_bytes sectors total (cluster_size h) (cluster_position h root (get_or (c ∷ cs) q 0))
          (contents sectors h root (drop q cs)) short))

  more_bytes :
      (cs : List ℕ) (q c total : ℕ)
      → q ≤ length cs
      → cluster_size h ≤ total
      → disk_bytes sectors (cluster_position h root (get_or (c ∷ cs) q 0)) (cluster_size h)
          ++ take (total - cluster_size h) (from_cluster c cs (q + 1))
        ≡ take total (from_cluster c cs q)
  more_bytes cs q c total le long =
      let split : cluster_size h + (total - cluster_size h) ≡ total = omega arith in
      let next : drop (q + 1) (c ∷ cs) ≡ drop q cs = let e : q + 1 ≡ suc q = omega arith in rw e in
      let start = cluster_position h root (get_or (c ∷ cs) q 0) in
      let joined =
        take_more sectors (cluster_size h) (total - cluster_size h) start
          (contents sectors h root (drop q cs)) in
      rw (next, drop_step sectors h root cs q c le)
        (sym joined
          ∙ ap
              (λ n.
                take n (
                  disk_bytes sectors start (cluster_size h) ++ contents sectors h root (drop q cs)))
              split)

  -- Where more than a cluster is left, there is another cluster.
  one_more :
      (n m total : ℕ)
      → m < total
      → total ≤ suc n * m
      → (n' : ℕ) × (n ≡ suc n') × (total ≤ suc n' * m + m)
  one_more zero m total long le = absurd (omega arith)
  one_more (suc n) m total long le = (n, refl, omega arith)

  read_chain :
      (fuel n total q c : ℕ) (cs : List ℕ) (k f d : ℕ)
      → IsWalk sectors h root c cs
      → 0 < cluster_size h
      → q + n ≡ length cs
      → total < fuel
      → total ≤ suc n * cluster_size h
      → q * cluster_size h + total < int_limit
      → (k' : ℕ) × (f' : ℕ) × (fat16_read_internal_from_stream sectors fuel
            (mounted h root k f d)
            c
            (q * cluster_size h + 0)
            total
          ≡ some ((done, take total (from_cluster c cs q)), mounted h root k' f' d))
  read_chain zero n total q c cs k f d ch pos count lt le int = absurd (omega arith)
  read_chain (suc fuel) n total q c cs k f d ch pos count lt le int =
      let inside =
        chain_inside sectors h root (get_or (c ∷ cs) q 0) (drop q cs)
          (IsWalk-drop sectors h root cs q c ch (omega arith)) in
      let (f', found) =
        cluster_for_offset sectors h root cs q 0 c k f d ch (omega arith) pos
          (omega (arith, int)) in
      let place : cluster_position h root (get_or (c ∷ cs) q 0) + 0
          ≡ cluster_position h root (get_or (c ∷ cs) q 0) =
        omega arith in
      elim (Bool-cases (leb total (cluster_size h))) [
        | inl e ↦
            let short : total ≤ cluster_size h = ground arith in
            (
              cluster_position h root (get_or (c ∷ cs) q 0) + 0 + total,
              f',
              subst
                  (λ bytes.
                    fat16_read_internal_from_stream sectors (suc fuel) (mounted h root k f d) c
                      (q * cluster_size h + 0) total
                    ≡ some (
                      (done, bytes),
                      mounted h root (cluster_position h root (get_or (c ∷ cs) q 0) + 0 + total) f'
                          d,
                    ))
                  (ap (λ p. disk_bytes sectors p total) place
                    ∙ first_bytes cs q c total (omega arith) short)
                  (last_round fuel q 0 c (get_or (c ∷ cs) q 0) total k f d f' pos short
                    (omega (arith, inside)) (omega (arith, int)) (omega (arith, inside, short))
                    found),
            )
        | inr e ↦
            let long : cluster_size h < total = ground arith in
            let (n', same, fits) = one_more n (cluster_size h) total long le in
            let rest =
              read_chain fuel n' (total - cluster_size h) (q + 1) c cs
                (cluster_position h root (get_or (c ∷ cs) q 0) + 0 + cluster_size h) f' d ch pos
                (omega (arith, same)) (omega arith) (omega (arith, same, fits))
                (omega (arith, int, long)) in
            let offset : (q + 1) * cluster_size h + 0 ≡ q * cluster_size h + 0 + cluster_size h =
              omega arith in
            (
              rest.0,
              rest.1,
              subst
                  (λ bytes.
                    fat16_read_internal_from_stream sectors (suc fuel) (mounted h root k f d) c
                      (q * cluster_size h + 0) total
                    ≡ some ((done, bytes), mounted h root (rest.0) (rest.1) d))
                  (ap
                      (λ p.
                        disk_bytes sectors p (cluster_size h)
                        ++ take (total - cluster_size h) (from_cluster c cs (q + 1)))
                      place
                    ∙ more_bytes cs q c total (omega arith) (omega arith))
                  (full_round fuel q c (get_or (c ∷ cs) q 0) total k f d f'
                    (take (total - cluster_size h) (from_cluster c cs (q + 1)))
                    (mounted h root (rest.0) (rest.1) d) pos long (omega (arith, int))
                    (omega (arith, int, long)) inside found (rw offset at rest.2)),
            )
      ]

  -- Where clusters that lie in the disk's first 2 ^ 31 bytes follow one another as the code looks them up
  -- (at the product of the table's position and twice the cluster, which is not the cluster's entry of
  -- the table), reading from the start of cluster number `q` of them at most as many bytes as it and
  -- those behind it hold, up to offset 2 ^ 31 of the file, succeeds, gives the bytes of these clusters in
  -- this order, wherever they lie on the disk, and changes nothing but the positions of the streams.
  pub fat16_read_internal_lem :
      (n total q c : ℕ) (cs : List ℕ) (k f d : ℕ)
      → IsWalk sectors h root c cs
      → 0 < cluster_size h
      → q + n ≡ length cs
      → total ≤ suc n * cluster_size h
      → q * cluster_size h + total < int_limit
      → (k' : ℕ) × (f' : ℕ) × (fat16_read_internal sectors
            (mounted h root k f d)
            c
            (q * cluster_size h)
            total
          ≡ some (
            (done, take total (contents sectors h root (drop q (c ∷ cs)))),
            mounted h root k' f' d,
          ))
  unfolding fat16_read_internal
  fat16_read_internal_lem n total q c cs k f d ch pos count le int =
      let same : q * cluster_size h ≡ q * cluster_size h + 0 = omega arith in
      rw same (read_chain (suc total) n total q c cs k f d ch pos count (omega arith) le int)

  -- Where clusters follow one another as the code looks them up, reading at most a cluster's bytes from any
  -- offset in them below 2 ^ 31 gives the bytes that follow on the disk, if these lie in its first 2 ^ 31
  -- bytes: where they go past the cluster's end, the rest is of the cluster that lies behind it on the
  -- disk, and not of the next cluster of the file.
  pub fat16_read_internal-across :
      (q r total c : ℕ) (cs : List ℕ) (k f d : ℕ)
      → IsWalk sectors h root c cs
      → q ≤ length cs
      → r < cluster_size h
      → total ≤ cluster_size h
      → q * cluster_size h + r < int_limit
      → cluster_position h root (get_or (c ∷ cs) q 0) + r + total < int_limit
      → (k' : ℕ) × (f' : ℕ) × (fat16_read_internal sectors
            (mounted h root k f d)
            c
            (q * cluster_size h + r)
            total
          ≡ some (
            (done, disk_bytes sectors (cluster_position h root (get_or (c ∷ cs) q 0) + r) total),
            mounted h root k' f' d,
          ))
  unfolding fat16_read_internal
  fat16_read_internal-across q r total c cs k f d ch le small short word inside =
      let (f', found) = cluster_for_offset sectors h root cs q r c k f d ch le small word in
      let reach = chain_inside sectors h root c cs ch in
      (
        cluster_position h root (get_or (c ∷ cs) q 0) + r + total,
        f',
        last_round total q r c (get_or (c ∷ cs) q 0) total k f d f' small short
            (omega (arith, reach)) word inside found,
      )
