-- ===== src/E1000/Eeprom/Served.antt =====
-- The EEPROM functions on a device that answers reads, and on one that never does.
use driver_workflow.Prelude.{
  ℕ, zero, suc, ◌+◌, ◌/◌, ◌%◌, ◌^◌, ◌<◌, ◌≡◌, ◌↔◌, sym, ap, ◌∙◌, bit_and, true, false, Option, some,
  List, [], ◌∷◌, ◌++◌, arith, ==_iff,
}
use driver_workflow.Bits.{has, bit_and-byte}
use driver_workflow.Bytes.{to_le_bytes}
use driver_workflow.Mmio.{Registers}
use driver_workflow.E1000.Regs.{eerd, eerd_done, eeprom_enet_addr, eeprom_checksum}
use driver_workflow.E1000.Eeprom.{
  eerd_data, eerd_command, poll_done, read_eeprom, words_from, read_eeprom_words, sum_from,
  validate_eeprom_checksum, mac_from, read_mac_addr_from_eeprom,
}
use mathlib.Core.List.{append_assoc, append-nil}

-- The EERD register as the data sheet describes it: a command written to it starts the read of a
-- word; reads of the register show that it is not done, fewer than 1000 times, and then that it is,
-- with the word in the data field.
pub record Device ⦃io : Registers⦄ : Type 1 where
  pub words : ℕ → ℕ
  pub words_fit : (o : ℕ) → words o < 2 ^ 16
  pub Idle : io.World → Type 0
  -- the read of a word, with as many answers to come that it is not done
  pub Busy : io.World → ℕ → ℕ → Type 0
  pub starts :
      (w : io.World) (o : ℕ)
      → Idle w
      → (k : ℕ) × (k < 1000) × Busy (io.write w eerd (eerd_command o)) o k
  pub waits :
      (w : io.World) (o k : ℕ)
      → Busy w o (suc k)
      → (has (io.read w eerd).0 eerd_done ≡ false) × Busy (io.read w eerd).1 o k
  pub answers :
      (w : io.World) (o : ℕ)
      → Busy w o 0
      → (has (io.read w eerd).0 eerd_done ≡ true)
        × (eerd_data (io.read w eerd).0 ≡ words o)
        × Idle (io.read w eerd).1

module _ ⦃io : Registers⦄ (dev : Device) where
  -- A call that succeeds with a value and leaves the device idle.
  abbrev pub Gives : {A : Type 0} → Option A × io.World → A → Type 0
  Gives r a = (r.0 ≡ some a) × dev.Idle r.1

  poll_done-Gives :
      (n : ℕ) (w : io.World) (o k : ℕ)
      → k < n
      → dev.Busy w o k
      → Gives (poll_done n w) (dev.words o)
  unfolding poll_done
  poll_done-Gives zero w o k h b = elim h [ ]
  poll_done-Gives (suc n) w o zero h b =
      let (done, word, idle) = dev.answers w o b in rw (poll_done, done) (ap some word, idle)
  poll_done-Gives (suc n) w o (suc k) h b =
      let (busy, b') = dev.waits w o k b in
      rw (poll_done, busy) (poll_done-Gives n (io.read w eerd).1 o k (omega arith) b')

  -- `read_eeprom` gives the word at the offset.
  pub read_eeprom-Gives :
      (w : io.World) (o : ℕ) → dev.Idle w → Gives (read_eeprom w o) (dev.words o)
  unfolding read_eeprom
  read_eeprom-Gives w o i = let (k, less, b) = dev.starts w o i in poll_done-Gives 1000 _ o k less b

  -- `n` words from offset `i` on, and their sum.
  abbrev pub word_list : ℕ → ℕ → List ℕ
  word_list zero i = []
  word_list (suc n) i = dev.words (i % 2 ^ 16) ∷ word_list n (i + 1)

  abbrev pub word_sum : ℕ → ℕ → ℕ
  word_sum zero i = 0
  word_sum (suc n) i = dev.words i + word_sum n (i + 1)

  words_from-Gives :
      (n i : ℕ) (ws : List ℕ) (w : io.World)
      → dev.Idle w
      → Gives (words_from n i ws w) (ws ++ word_list n i)
  unfolding words_from
  words_from-Gives zero i ws w idle = (ap some (sym (append-nil ws)), idle)
  words_from-Gives (suc n) i ws w idle =
      let (e, idle') = read_eeprom-Gives w (i % 2 ^ 16) idle in
      let (r, last) = words_from-Gives n (i + 1) (ws ++ (dev.words (i % 2 ^ 16) ∷ [])) _ idle' in
      rw (words_from, e)
        (r ∙ ap some (append_assoc ws (dev.words (i % 2 ^ 16) ∷ []) (word_list n (i + 1))), last)

  -- On an idle device that answers reads, `read_eeprom_words` gives the words from the offset on, in
  -- order, and leaves the device idle.
  pub read_eeprom_words-Gives :
      (w : io.World) (offset count : ℕ)
      → dev.Idle w
      → Gives (read_eeprom_words w offset count) (word_list count offset)
  unfolding read_eeprom_words
  read_eeprom_words-Gives w offset count idle = words_from-Gives count offset [] w idle

  sum_from-Gives :
      (n i sum : ℕ) (w : io.World)
      → dev.Idle w
      → sum < 2 ^ 16
      → Gives (sum_from n i sum w) ((sum + word_sum n i) % 2 ^ 16)
  unfolding sum_from
  sum_from-Gives zero i sum w idle h = (ap some (omega arith), idle)
  sum_from-Gives (suc n) i sum w idle h =
      let (e, idle') = read_eeprom-Gives w i idle in
      let (r, last) =
        sum_from-Gives n (i + 1) ((sum + dev.words i) % 2 ^ 16) _ idle' (omega arith) in
      rw (sum_from, e) (r ∙ ap some (omega arith), last)

  -- On an idle device that answers reads, the checksum is accepted exactly when the first 64 words add up to
  -- 0xBABA modulo 2^16.
  pub validate_eeprom_checksum_iff :
      (w : io.World)
      → dev.Idle w
      → ((validate_eeprom_checksum w).0 ≡ true) ↔ (word_sum 64 0 % 2 ^ 16 ≡ eeprom_checksum)
  unfolding validate_eeprom_checksum
  validate_eeprom_checksum_iff w idle =
      let (e, _) = sum_from-Gives 64 0 0 w idle (omega arith) in
      let from_zero : (s : ℕ) → (0 + s) % 2 ^ 16 ≡ s % 2 ^ 16 = λ s. omega arith in
      rw (validate_eeprom_checksum, e, from_zero) (==_iff (word_sum 64 0 % 2 ^ 16) eeprom_checksum)

  -- The bytes of `n` words from word `i` on, the low byte of a word first.
  abbrev pub word_bytes : ℕ → ℕ → List ℕ
  word_bytes zero i = []
  word_bytes (suc n) i = to_le_bytes 2 (dev.words i) ++ word_bytes n (i + 1)

  split_word : (x : ℕ) → x < 2 ^ 16 → bit_and x 0xff ∷ x / 256 ∷ [] ≡ to_le_bytes 2 x
  unfolding to_le_bytes
  split_word x h = ground (arith, bit_and-byte x)

  mac_from-Gives :
      (n i : ℕ) (mac : List ℕ) (w : io.World)
      → dev.Idle w
      → Gives (mac_from n i mac w) (mac ++ word_bytes n i)
  unfolding mac_from
  mac_from-Gives zero i mac w idle = (ap some (sym (append-nil mac)), idle)
  mac_from-Gives (suc n) i mac w idle =
      let (e, idle') = read_eeprom-Gives w (eeprom_enet_addr + i) idle in
      let x = dev.words (eeprom_enet_addr + i) in
      let (r, last) = mac_from-Gives n (i + 1) (mac ++ (bit_and x 0xff ∷ x / 256 ∷ [])) _ idle' in
      let same : x ≡ dev.words i = ap dev.words (omega arith) in
      let bytes = split_word x (dev.words_fit _) ∙ ap (to_le_bytes 2) same in
      rw (mac_from, e)
        (
          r
              ∙ ap some (
                  append_assoc mac (bit_and x 0xff ∷ x / 256 ∷ []) (word_bytes n (i + 1))
                  ∙ ap (λ (b : List ℕ). mac ++ (b ++ word_bytes n (i + 1))) bytes),
          last,
        )

  -- On an idle device that answers reads, `read_mac_addr_from_eeprom` gives the six bytes of the
  -- first three words, the low byte of each word first, and leaves the device idle.
  pub read_mac_addr_from_eeprom-Gives :
      (w : io.World) → dev.Idle w → Gives (read_mac_addr_from_eeprom w) (word_bytes 3 0)
  unfolding read_mac_addr_from_eeprom
  read_mac_addr_from_eeprom-Gives w idle = mac_from-Gives 3 0 [] w idle
