-- ===== src/Apic/Codec.antt =====
-- The bit fields of a redirection entry and their two words.
use brownie_os.Base.{ℕ, ◌<◌, ◌≡◌, refl, arith}
use brownie_os.Apic.{RedirEntryLo, RedirEntryHi, lo_word, lo_entry, hi_word, hi_entry}

-- The fields within their widths
pub record IsLoEntry (e : RedirEntryLo) : Type 0 where
  pub vector : e.vector < 256
  pub deliv_mode : e.deliv_mode < 8
  pub dest_mode : e.dest_mode < 2
  pub deliv_status : e.deliv_status < 2
  pub pin_polarity : e.pin_polarity < 2
  pub remote_irr : e.remote_irr < 2
  pub trigger_mode : e.trigger_mode < 2
  pub masked : e.masked < 2
  pub lo_reserved : e.lo_reserved < 32768

pub record IsHiEntry (e : RedirEntryHi) : Type 0 where
  pub hi_reserved : e.hi_reserved < 16777216
  pub dest : e.dest < 256

module _ (e : RedirEntryLo) (l : IsLoEntry e) where
  vector_field : (lo_entry (lo_word e)).vector ≡ e.vector
  unfolding lo_entry lo_word
  vector_field = omega (
    arith, l.vector, l.deliv_mode, l.dest_mode, l.deliv_status, l.pin_polarity, l.remote_irr,
    l.trigger_mode, l.masked, l.lo_reserved,
  )

  deliv_mode_field : (lo_entry (lo_word e)).deliv_mode ≡ e.deliv_mode
  unfolding lo_entry lo_word
  deliv_mode_field = omega (
    arith, l.vector, l.deliv_mode, l.dest_mode, l.deliv_status, l.pin_polarity, l.remote_irr,
    l.trigger_mode, l.masked, l.lo_reserved,
  )

  dest_mode_field : (lo_entry (lo_word e)).dest_mode ≡ e.dest_mode
  unfolding lo_entry lo_word
  dest_mode_field = omega (
    arith, l.vector, l.deliv_mode, l.dest_mode, l.deliv_status, l.pin_polarity, l.remote_irr,
    l.trigger_mode, l.masked, l.lo_reserved,
  )

  deliv_status_field : (lo_entry (lo_word e)).deliv_status ≡ e.deliv_status
  unfolding lo_entry lo_word
  deliv_status_field = omega (
    arith, l.vector, l.deliv_mode, l.dest_mode, l.deliv_status, l.pin_polarity, l.remote_irr,
    l.trigger_mode, l.masked, l.lo_reserved,
  )

  pin_polarity_field : (lo_entry (lo_word e)).pin_polarity ≡ e.pin_polarity
  unfolding lo_entry lo_word
  pin_polarity_field = omega (
    arith, l.vector, l.deliv_mode, l.dest_mode, l.deliv_status, l.pin_polarity, l.remote_irr,
    l.trigger_mode, l.masked, l.lo_reserved,
  )

  remote_irr_field : (lo_entry (lo_word e)).remote_irr ≡ e.remote_irr
  unfolding lo_entry lo_word
  remote_irr_field = omega (
    arith, l.vector, l.deliv_mode, l.dest_mode, l.deliv_status, l.pin_polarity, l.remote_irr,
    l.trigger_mode, l.masked, l.lo_reserved,
  )

  trigger_mode_field : (lo_entry (lo_word e)).trigger_mode ≡ e.trigger_mode
  unfolding lo_entry lo_word
  trigger_mode_field = omega (
    arith, l.vector, l.deliv_mode, l.dest_mode, l.deliv_status, l.pin_polarity, l.remote_irr,
    l.trigger_mode, l.masked, l.lo_reserved,
  )

  masked_field : (lo_entry (lo_word e)).masked ≡ e.masked
  unfolding lo_entry lo_word
  masked_field = omega (
    arith, l.vector, l.deliv_mode, l.dest_mode, l.deliv_status, l.pin_polarity, l.remote_irr,
    l.trigger_mode, l.masked, l.lo_reserved,
  )

  lo_reserved_field : (lo_entry (lo_word e)).lo_reserved ≡ e.lo_reserved
  unfolding lo_entry lo_word
  lo_reserved_field = omega (
    arith, l.vector, l.deliv_mode, l.dest_mode, l.deliv_status, l.pin_polarity, l.remote_irr,
    l.trigger_mode, l.masked, l.lo_reserved,
  )

  pub lo_entry-lo_word : lo_entry (lo_word e) ≡ e
  lo_entry-lo_word =
      rw
        (
          vector_field, deliv_mode_field, dest_mode_field, deliv_status_field, pin_polarity_field,
          remote_irr_field, trigger_mode_field, masked_field, lo_reserved_field,
        )
        refl

module _ (e : RedirEntryHi) (h : IsHiEntry e) where
  hi_reserved_field : (hi_entry (hi_word e)).hi_reserved ≡ e.hi_reserved
  unfolding hi_entry hi_word
  hi_reserved_field = omega (arith, h.hi_reserved)

  dest_field : (hi_entry (hi_word e)).dest ≡ e.dest
  unfolding hi_entry hi_word
  dest_field = omega (arith, h.hi_reserved, h.dest)

  pub hi_entry-hi_word : hi_entry (hi_word e) ≡ e
  hi_entry-hi_word = rw (hi_reserved_field, dest_field) refl

-- The fields of the word that is made of an entry are the entry's, and the word made of a word's
-- fields is that word: for both halves of a redirection entry, with fields within their widths and
-- words of 32 bits.
pub redir_entry-word :
    (lo : RedirEntryLo) (hi : RedirEntryHi) (w : ℕ)
    → IsLoEntry lo
    → IsHiEntry hi
    → w < 4294967296
    → (lo_entry (lo_word lo) ≡ lo)
      × (hi_entry (hi_word hi) ≡ hi)
      × (lo_word (lo_entry w) ≡ w)
      × (hi_word (hi_entry w) ≡ w)
unfolding lo_entry lo_word hi_entry hi_word
redir_entry-word lo hi w l h small =
    (lo_entry-lo_word lo l, hi_entry-hi_word hi h, omega (arith, small), omega (arith, small))
