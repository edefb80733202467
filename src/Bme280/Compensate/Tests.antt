-- ===== src/Bme280/Compensate/Tests.antt =====
-- The compensation at the datasheet's example, as firmware/test_host/test-bme280-compensate.c has it.
use s3_bme.Base.{◌≤◌, ◌≡◌, refl}
use s3_bme.Base.Int.{pos, negsuc}
use s3_bme.Base.Int32.{◌⊕◌, ◌⊖◌, ◌⊗◌, shl, shr}
use s3_bme.Bme280.{Calib}
use s3_bme.Bme280.Compensate.{compensate, t_fine_of, temperature, pressure, pressure_from}
use s3_bme.Bme280.Compensate.Humidity.{compensate-hum_centi}

abbrev pub calib : Calib
calib = record {
  dig_t1 = 27504;
  dig_t2 = pos 26435;
  dig_t3 = negsuc 999;
  dig_p1 = 36477;
  dig_p2 = negsuc 10684;
  dig_p3 = pos 3024;
  dig_p4 = pos 2855;
  dig_p5 = pos 140;
  dig_p6 = negsuc 6;
  dig_p7 = pos 15500;
  dig_p8 = negsuc 14599;
  dig_p9 = pos 6000;
  dig_h1 = 75;
  dig_h2 = pos 367;
  dig_h3 = 0;
  dig_h4 = pos 301;
  dig_h5 = pos 50;
  dig_h6 = pos 30;
}

datasheet : (compensate calib (pos 519888) (pos 415148) (pos 30000)).temp_centi ≡ pos 2508
unfolding compensate t_fine_of temperature ◌⊕◌ ◌⊖◌ ◌⊗◌ shl shr
datasheet = refl

datasheet_pressure : (compensate calib (pos 519888) (pos 415148) (pos 30000)).pressure_pa ≡ 100656
unfolding compensate t_fine_of pressure pressure_from ◌⊕◌ ◌⊖◌ ◌⊗◌ shl shr
datasheet_pressure = refl

compensate-hum_centi_example :
    (compensate calib (pos 519888) (pos 415148) (pos 30000)).hum_centi ≤ 10000
compensate-hum_centi_example = compensate-hum_centi calib (pos 519888) (pos 415148) (pos 30000)
