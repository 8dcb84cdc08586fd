-- ===== src/Examples/Tables.antt =====
-- The band tables and the billing cycle, at concrete inputs.
use ha_zte_router_5g_monitor.Prelude.{◌≤◌, ◌≡◌, refl, true, false, some, arith, inl, inr}
use ha_zte_router_5g_monitor.Prelude.Int.{pos}
use ha_zte_router_5g_monitor.Helpers.Bands.{earfcn_to_band, earfcn_bands}
use ha_zte_router_5g_monitor.Helpers.Bands.Exact.{IsRow, earfcn_exact}
use ha_zte_router_5g_monitor.Helpers.Cycle.{Moment, before, cycle_bounds, month_length}
use ha_zte_router_5g_monitor.Helpers.Cycle.Contains.{IsDate, cycle_bounds_lem}

b3-IsRow : IsRow (1200, 1949, "B3") earfcn_bands
unfolding earfcn_bands
b3-IsRow = inr (inr (inl refl))

earfcn_exact_example : earfcn_to_band (some (pos 1949)) ≡ some "B3"
earfcn_exact_example = earfcn_exact 1949 1200 1949 "B3" b3-IsRow (omega arith) (omega arith)

-- Noon of the first of March 2024, with the counters cleared on the 31st.
abbrev march : Moment
march = record { date = record { year = 2024; month = 3; day = 1 }; time = 43200000000 }

march-IsDate : IsDate march.date
unfolding month_length
march-IsDate = record {
  year_pos = omega arith;
  month_pos = omega arith;
  month_le = omega arith;
  day_pos = omega arith;
  day_le = omega arith;
}

cycle_bounds_lem_example :
    let (start, end, length) = cycle_bounds 31 march in
    (before march start ≡ false)
    × (before march end ≡ true)
    × (28 ≤ length)
    × (length ≤ 31)
    × ((cycle_bounds 31 end).0 ≡ end)
cycle_bounds_lem_example = cycle_bounds_lem 31 march march-IsDate (omega arith) (omega arith)
