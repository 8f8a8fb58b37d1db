-- ===== src/Stdlib/Lines.antt =====
-- bimbleos_terminal_realine reads the line that was typed.
use bimble_os.Common.{
  ℕ, suc, ◌+◌, ◌-◌, ◌<◌, ◌≡◌, refl, ap, ◌∙◌, true, false, Bool, some, List, [], ◌∷◌, ◌++◌, inl, inr,
  arith, length, leb, set, ◌&&◌, ◌==◌, Bool-cases, if◌then◌else◌,
}
use bimble_os.Common.Word.{sub32}
use bimble_os.Stdlib.{read_keys, bimbleos_terminal_realine}

-- The line once keys are typed, its last character first: up to the return key, a backspace takes a
-- character away, and is kept as one where there is none.
unfoldable pub edited : List ℕ → List ℕ → List ℕ
edited line [] = line
edited [] (key ∷ keys) =
    if key == 0 then edited [] keys else if key == 0x0D then [] else edited (key ∷ []) keys
edited (c ∷ line) (key ∷ keys) =
    if key == 0
    then edited (c ∷ line) keys
    else if key == 0x0D
    then c ∷ line
    else if key == 0x08
    then edited line keys
    else edited (key ∷ c ∷ line) keys

-- A line, its last character first, with what stands behind it.
abbrev pub onto : List ℕ → List ℕ → List ℕ
onto [] behind = behind
onto (c ∷ line) behind = onto line (c ∷ behind)

unfoldable pub HasReturn : List ℕ → Type 0
HasReturn [] = ⊥
HasReturn (key ∷ keys) = if key == 0x0D then Unit else HasReturn keys

set-onto :
    (line behind : List ℕ) (k v : ℕ)
    → set (onto line behind) (length line + k) v ≡ onto line (set behind k v)
set-onto [] behind k v = let e : 0 + k ≡ k = omega arith in rw e refl
set-onto (c ∷ line) behind k v =
    let e : suc (length line) + k ≡ length line + suc k = omega arith in
    rw e (set-onto line (c ∷ behind) (suc k) v)

store_end :
    (line : List ℕ) (b : ℕ) (behind : List ℕ) (v : ℕ)
    → set (onto line (b ∷ behind)) (length line) v ≡ onto line (v ∷ behind)
store_end line b behind v =
    let e : length line ≡ length line + 0 = omega arith in
    ap (λ n. set (onto line (b ∷ behind)) n v) e ∙ set-onto line (b ∷ behind) 0 v

-- What reading gives from a line on.
HasLine : List ℕ → List ℕ → List ℕ → ℕ → List ℕ → List ℕ → Type 0
HasLine keys line behind max echoed out =
    (rest : List ℕ) × (shown : List ℕ) × (read_keys keys max out (length line) echoed
      ≡ some (onto (edited line keys) (0 ∷ rest), shown))

read_keys-HasLine :
    (keys line behind : List ℕ) (max : ℕ) (echoed : List ℕ)
    → HasReturn keys
    → length line + length keys < max
    → length line + length behind ≡ max
    → max < 0x1_0000_0000
    → HasLine keys line behind max echoed (onto line behind)
unfolding read_keys edited HasReturn HasLine
read_keys-HasLine [] line behind max echoed ret lt size small = absurd ret
read_keys-HasLine (key ∷ keys) line [] max echoed ret lt size small = absurd (omega arith)
read_keys-HasLine (key ∷ keys) [] (b ∷ behind) max echoed ret lt size small =
    let room : leb (sub32 max 1) 0 ≡ false = ground arith in
    elim (Bool-cases (key == 0)) [
      | inl e ↦
          let other : (key == 0x0D) ≡ false = ground arith in
          rw (room, e)
            (read_keys-HasLine keys [] (b ∷ behind) max echoed (rw other at ret) (omega arith)
              (omega arith) small)
      | inr e ↦ elim (Bool-cases (key == 0x0D)) [
        | inl r ↦ rw (room, e, r) (behind, echoed, refl)
        | inr r ↦
            let first : leb 1 0 ≡ false = ground arith in
            let plain : (key == 0x08 && leb 1 0) ≡ false = ground arith in
            let next : 0 + 1 ≡ 1 = omega arith in
            rw (room, e, r, plain)
              (read_keys-HasLine keys (key ∷ []) behind max (echoed ++ (key ∷ [])) (rw r at ret)
                (omega arith) (omega arith) small)
      ]
    ]
read_keys-HasLine (key ∷ keys) (c ∷ line) (b ∷ behind) max echoed ret lt size small =
    let room : leb (sub32 max 1) (suc (length line)) ≡ false = ground arith in
    let put = store_end (c ∷ line) b behind key in
    elim (Bool-cases (key == 0)) [
      | inl e ↦
          let other : (key == 0x0D) ≡ false = ground arith in
          rw (room, e)
            (read_keys-HasLine keys (c ∷ line) (b ∷ behind) max echoed (rw other at ret)
              (omega arith) (omega arith) small)
      | inr e ↦ elim (Bool-cases (key == 0x0D)) [
        | inl r ↦ rw (room, e, r, store_end (c ∷ line) b behind 0) (behind, echoed, refl)
        | inr r ↦ elim (Bool-cases (key == 0x08)) [
          | inl k ↦
              let erase : (key == 0x08 && leb 1 (suc (length line))) ≡ true = ground arith in
              let before : suc (length line) - 1 ≡ length line = omega arith in
              rw (room, e, r, erase, k, put, before, store_end line c (key ∷ behind) 0)
                (read_keys-HasLine keys line (0 ∷ key ∷ behind) max (echoed ++ (key ∷ []))
                  (rw r at ret) (omega arith) (omega arith) small)
          | inr k ↦
              let plain : (key == 0x08 && leb 1 (suc (length line))) ≡ false = ground arith in
              let next : suc (length line) + 1 ≡ suc (suc (length line)) = omega arith in
              rw (room, e, r, plain, k, put, next)
                (read_keys-HasLine keys (key ∷ c ∷ line) behind max (echoed ++ (key ∷ []))
                  (rw r at ret) (omega arith) (omega arith) small)
        ]
      ]
    ]

-- Into a buffer of `max` bytes, from keys of which one is the return key and that are fewer than `max`,
-- `bimbleos_terminal_realine` reads the line as it is edited: the keys before the return key, without
-- those that are 0, where each backspace behind a character takes it away; a 0 follows the line.
pub bimbleos_terminal_realine_lem :
    (keys buffer : List ℕ) (max : ℕ) (echo : Bool)
    → HasReturn keys
    → length keys < max
    → length buffer ≡ max
    → max < 0x1_0000_0000
    → (rest : List ℕ) × (shown : List ℕ) × (bimbleos_terminal_realine buffer max echo keys
        ≡ some (onto (edited [] keys) (0 ∷ rest), shown))
unfolding bimbleos_terminal_realine HasLine
bimbleos_terminal_realine_lem keys buffer max echo ret lt size small =
    let (rest, shown, e) =
      read_keys-HasLine keys [] buffer max [] ret (omega arith) (omega arith) small in
    (rest, if echo then shown else [], rw (bimbleos_terminal_realine, e) refl)
