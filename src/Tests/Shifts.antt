-- ===== src/Tests/Shifts.antt =====
-- 2001:db8::5, shifted by 70 bits.
use prefix_lookup_mc.Base.{◌*◌, ◌/◌, ◌%◌, ◌^◌, arith}
use prefix_lookup_mc.V6.{IpV6, lshift_ipv6, rshift_ipv6}
use prefix_lookup_mc.V6.Laws.{value_v6}
use prefix_lookup_mc.V6.Shifts.{HasValue, shift_ipv6_lem}

abbrev address : IpV6
address = record { iplo = 5; iphi = 0x20010db800000000 }

shift_ipv6_lem_example :
    HasValue (lshift_ipv6 address 70) (value_v6 address * 2 ^ 70 % 2 ^ 128)
    × HasValue (rshift_ipv6 address 70) (value_v6 address / 2 ^ 70)
shift_ipv6_lem_example =
    shift_ipv6_lem address 70 (record { low = omega arith; high = omega arith }) (omega arith)
      (omega arith)
