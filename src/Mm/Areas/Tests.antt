-- ===== src/Mm/Areas/Tests.antt =====
-- free_area_init on a layout of 8192 pages of which the first 300 are reserved.
use quark_os.Base.{◌+◌, ◌*◌, refl, some, none, arith, ltb, if◌then◌else◌}
use quark_os.Mm.{Layout, Mm, max_order, page_isfree, zone_dma}
use quark_os.Mm.Lists.{IsLayout}
use quark_os.Mm.Areas.{init_zone_areas}
use quark_os.Mm.Areas.Prefix.{with_zone}
use quark_os.Mm.Areas.Sweep.{Sweeps, init_zone_areas-IsSwept}
use quark_os.Mm.Areas.Start.{IsStart, no_blocks, none_listed, empty-IsBefore}

abbrev layout : Layout
layout = record { mem_map = 4194304 + 4096; zones = 4194304 }

layout-IsLayout : IsLayout layout
layout-IsLayout = record { below = omega arith }

abbrev start : Mm
start = record {
  lists = record { next = λ a. some 0; prev = λ a. some 0 };
  count = λ page. if ltb page 300 then 1 else 0;
  flags = λ page. 0;
  nr_free = λ zone order. 0;
  spanned_pages = λ zone. 4096;
  free_pages = λ zone. 0;
  zone_mem_map = λ zone. 4096 * zone;
  zonelist = λ slot. none;
}

start-IsStart : IsStart layout 8192 300 start
unfolding page_isfree
start-IsStart = record {
  dma = record {
    zone_in = omega arith;
    taken = λ j h. ground arith;
    free = λ j lo hi. ground arith;
    within = omega arith;
    small = omega arith;
  };
  normal = record {
    zone_in = omega arith;
    taken = λ j h. absurd (omega arith);
    free = λ j lo hi. ground arith;
    within = omega arith;
    small = omega arith;
  };
  some_reserved = omega arith;
  reserved_in = omega arith;
  whole_dma = refl;
  whole_normal = refl;
  after = omega arith;
  nodes = λ p hp. record { next = refl; prev = refl };
  heads = λ z o hz ho. record { next = refl; prev = refl };
  cleared = λ z o hz ho. (refl, refl);
}

init_zone_areas-IsSwept_example :
    Sweeps layout 8192 zone_dma 300 4096
      (with_zone zone_dma max_order none_listed)
      (init_zone_areas layout zone_dma)
      start
      no_blocks
init_zone_areas-IsSwept_example =
    init_zone_areas-IsSwept layout-IsLayout start-IsStart.dma none_listed no_blocks (omega arith)
      (omega arith) refl (empty-IsBefore start-IsStart zone_dma (omega arith))
