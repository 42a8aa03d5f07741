-- ===== src/Lane/Reason.antt =====
-- The texts that are written into `decision_reason`, as numbers.
use copy_s3_to_oci.Base.{ℕ}

abbrev pub fifo : ℕ
fifo = 1

abbrev pub inside_reserve : ℕ
inside_reserve = 2

abbrev pub under_30_minutes : ℕ
under_30_minutes = 3

abbrev pub under_2_hours : ℕ
under_2_hours = 4

abbrev pub under_6_hours : ℕ
under_6_hours = 5

abbrev pub viable : ℕ
viable = 6

abbrev pub expired_copy : ℕ
expired_copy = 7

abbrev pub lease_expired : ℕ
lease_expired = 8

abbrev pub handoff_expired : ℕ
handoff_expired = 9

abbrev pub claimed_critical : ℕ
claimed_critical = 10

abbrev pub claimed_normal : ℕ
claimed_normal = 11

abbrev pub handoff_target : ℕ
handoff_target = 12
