-- ===== src/Handler/Write/Limits.antt =====
-- What a write that passes the checks sends to the PLC.
use gomc_rest.Common.{◌+◌, ◌≤◌, ◌<◌, ◌^◌, ◌≡◌, true, false, length, All}
use gomc_rest.Device.{is_word_device}
use gomc_rest.Handler.Write.{WritePlan, k_word, word_bits, words, bits}

-- The limits of a request, per kind of address.
abbrev pub IsWithinWriteLimits : WritePlan → Type 0
IsWithinWriteLimits (k_word device addr nibbles value) =
    (is_word_device device ≡ false)
    × (addr < 2 ^ 63)
    × (1 ≤ nibbles)
    × (nibbles ≤ 8)
    × (value < 2 ^ 32)
IsWithinWriteLimits (word_bits device addr bit values) =
    (is_word_device device ≡ true)
    × (addr < 2 ^ 63)
    × (1 ≤ length values)
    × (bit + length values ≤ 16)
IsWithinWriteLimits (words device addr values) =
    (is_word_device device ≡ true)
    × (addr < 2 ^ 63)
    × (1 ≤ length values)
    × (length values ≤ 1024)
    × All (λ w. w < 2 ^ 16) values
IsWithinWriteLimits (bits device addr values) =
    (is_word_device device ≡ false) × (addr < 2 ^ 63) × (1 ≤ length values) × (length values ≤ 1024)
