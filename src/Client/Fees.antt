-- ===== src/Client/Fees.antt =====
-- The list of developer fees stays as the login packet needs it.
use fastrie.Base.{
  ℕ, ◌<◌, ◌≡◌, refl, ◌∙◌, sym, subst, if-true, if-false, Bool, true, false, List, [], ◌∷◌, ◌++◌,
  length, length-append, length-take, length-drop, take, drop, All, leb, leb→gt, ◌==◌, ==_iff, ◌&&◌,
  arith, Bool-cases, inl, inr, ◌⊎◌,
}
use fastrie.Client.State.{Client, DevFeeEntry}
use fastrie.Client.Base58.{checksum_ok, accept_address}
use fastrie.Client.Login.{AreEntries}

All-append :
    (ds : List DevFeeEntry) (d : DevFeeEntry)
    → All (λ d. length d.pub_key_hash ≡ 20) ds
    → length d.pub_key_hash ≡ 20
    → All (λ d. length d.pub_key_hash ≡ 20) (ds ++ (d ∷ []))
All-append [] d v h = (h, tt)
All-append (x ∷ ds) d (a, v) h = (a, All-append ds d v h)

-- The entry that an address stands for.
abbrev pub entry : List ℕ → ℕ → DevFeeEntry
entry raw integer_fee = record { dev_fee = integer_fee; pub_key_hash = take 20 (drop 1 raw) }

-- A client with other fee entries.
abbrev pub with_entries : Client → List DevFeeEntry → Client
with_entries c ds = record c { developer_fee_entry = ds }

&&-true : (a b : Bool) → (a && b) ≡ true → (a ≡ true) × (b ≡ true)
&&-true true true e = (refl, refl)
&&-true true false e = absurd (ground (arith, e))
&&-true false b e = absurd (ground (arith, e))

-- What becomes of a decoded address, on every branch: the fee list still has at most 8 entries, each
-- with a hash of 20 bytes, as the login packet wants it; and either the address has 25 bytes and its
-- last four are the first of the double hash of the others, the list was not full, and the entry with
-- the 20 bytes behind the first is put at its end, or nothing changes.
pub accept_address_lem :
    (sha256 : List ℕ → List ℕ) (raw : List ℕ) (integer_fee : ℕ) (c : Client)
    → AreEntries c.developer_fee_entry
    → AreEntries (accept_address sha256 raw integer_fee c).developer_fee_entry
      × (((length raw ≡ 25)
            × (checksum_ok sha256 raw ≡ true)
            × (length c.developer_fee_entry < 8)
            × (accept_address sha256 raw integer_fee c
                ≡ with_entries c (c.developer_fee_entry ++ (entry raw integer_fee ∷ []))))
          ⊎ (accept_address sha256 raw integer_fee c ≡ c))
unfolding accept_address
accept_address_lem sha256 raw integer_fee c (few, es) =
    elim (Bool-cases (length raw == 25 && checksum_ok sha256 raw)) [
      | inr bad ↦ unchanged (if-false _ _ bad)
      | inl good ↦ elim (Bool-cases (leb 8 (length c.developer_fee_entry))) [
        | inl full ↦ unchanged (if-true _ _ good ∙ if-true _ _ full)
        | inr free ↦
            let (len, check) = &&-true (length raw == 25) (checksum_ok sha256 raw) good in
            let l25 : length raw ≡ 25 = (==_iff (length raw) 25).0 len in
            let lt : length c.developer_fee_entry < 8 = leb→gt _ _ free in
            let same = if-true _ _ good ∙ if-false _ _ free in
            (
              subst (λ (d : Client). AreEntries d.developer_fee_entry) (sym same)
                  (
                    omega (
                      arith,
                      lt,
                      length-append c.developer_fee_entry (entry raw integer_fee ∷ []),
                    ),
                    All-append c.developer_fee_entry (entry raw integer_fee) es (twenty l25),
                  ),
              inl (l25, check, lt, same),
            )
      ]
    ]
  where
    unchanged :
        accept_address sha256 raw integer_fee c ≡ c
        → AreEntries (accept_address sha256 raw integer_fee c).developer_fee_entry
          × (((length raw ≡ 25)
                × (checksum_ok sha256 raw ≡ true)
                × (length c.developer_fee_entry < 8)
                × (accept_address sha256 raw integer_fee c
                    ≡ with_entries c (c.developer_fee_entry ++ (entry raw integer_fee ∷ []))))
              ⊎ (accept_address sha256 raw integer_fee c ≡ c))
    unchanged e =
        (subst (λ (d : Client). AreEntries d.developer_fee_entry) (sym e) (few, es), inr e)

    twenty : length raw ≡ 25 → length (take 20 (drop 1 raw)) ≡ 20
    twenty e = omega (arith, e, length-take 20 (drop 1 raw), length-drop 1 raw)
