-- ===== src/Http/Tests.antt =====
-- The answer to a connection that could not be opened.
use gomc_rest.Common.{◌≡◌}
use gomc_rest.Common.Text.{codes}
use gomc_rest.Failure.{Error, conn_wrap, mc_connection}
use gomc_rest.Http.{write_plc_err}
use gomc_rest.Http.Errors.{row, root, is_marked, response_of, write_plc_err-row}

abbrev refused_dial : Error
refused_dial = conn_wrap (mc_connection (codes "refused"))

write_plc_err-row_example :
    write_plc_err refused_dial
    ≡ response_of (row refused_dial (root refused_dial) (is_marked refused_dial))
write_plc_err-row_example = write_plc_err-row refused_dial
