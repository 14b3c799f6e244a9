-- ===== src/MlKem/Ntt/Zetas.antt =====
-- The table mlkem_zetas of tools/pqc/mlkem/mlkem_ntt.c.
use karudeb.Base.{ℤ, pos, negsuc, List, [], ◌∷◌}

abbrev pub mlkem_zetas : List ℤ
mlkem_zetas =
    negsuc 1043
    ∷ negsuc 757
    ∷ negsuc 358
    ∷ negsuc 1516
    ∷ pos 1493
    ∷ pos 1422
    ∷ pos 287
    ∷ pos 202
    ∷ negsuc 170
    ∷ pos 622
    ∷ pos 1577
    ∷ pos 182
    ∷ pos 962
    ∷ negsuc 1201
    ∷ negsuc 1473
    ∷ pos 1468
    ∷ pos 573
    ∷ negsuc 1324
    ∷ pos 264
    ∷ pos 383
    ∷ negsuc 828
    ∷ pos 1458
    ∷ negsuc 1601
    ∷ negsuc 129
    ∷ negsuc 680
    ∷ pos 1017
    ∷ pos 732
    ∷ pos 608
    ∷ negsuc 1541
    ∷ pos 411
    ∷ negsuc 204
    ∷ negsuc 1570
    ∷ pos 1223
    ∷ pos 652
    ∷ negsuc 551
    ∷ pos 1015
    ∷ negsuc 1292
    ∷ pos 1491
    ∷ negsuc 281
    ∷ negsuc 1543
    ∷ pos 516
    ∷ negsuc 7
    ∷ negsuc 319
    ∷ negsuc 665
    ∷ negsuc 1617
    ∷ negsuc 1161
    ∷ pos 126
    ∷ pos 1469
    ∷ negsuc 852
    ∷ negsuc 89
    ∷ negsuc 270
    ∷ pos 830
    ∷ pos 107
    ∷ negsuc 1420
    ∷ negsuc 246
    ∷ negsuc 950
    ∷ negsuc 397
    ∷ pos 961
    ∷ negsuc 1507
    ∷ negsuc 724
    ∷ pos 448
    ∷ negsuc 1064
    ∷ pos 677
    ∷ negsuc 1274
    ∷ negsuc 1102
    ∷ pos 430
    ∷ pos 555
    ∷ pos 843
    ∷ negsuc 1250
    ∷ pos 871
    ∷ pos 1550
    ∷ pos 105
    ∷ pos 422
    ∷ pos 587
    ∷ pos 177
    ∷ negsuc 234
    ∷ negsuc 290
    ∷ negsuc 459
    ∷ pos 1574
    ∷ pos 1653
    ∷ negsuc 245
    ∷ pos 778
    ∷ pos 1159
    ∷ negsuc 146
    ∷ negsuc 776
    ∷ pos 1483
    ∷ negsuc 601
    ∷ pos 1119
    ∷ negsuc 1589
    ∷ pos 644
    ∷ negsuc 871
    ∷ pos 349
    ∷ pos 418
    ∷ pos 329
    ∷ negsuc 155
    ∷ negsuc 74
    ∷ pos 817
    ∷ pos 1097
    ∷ pos 603
    ∷ pos 610
    ∷ pos 1322
    ∷ negsuc 1284
    ∷ negsuc 1464
    ∷ pos 384
    ∷ negsuc 1214
    ∷ negsuc 135
    ∷ pos 1218
    ∷ negsuc 1334
    ∷ negsuc 873
    ∷ pos 220
    ∷ negsuc 1186
    ∷ negsuc 1658
    ∷ negsuc 1184
    ∷ negsuc 1529
    ∷ negsuc 1277
    ∷ pos 794
    ∷ negsuc 1509
    ∷ negsuc 853
    ∷ negsuc 869
    ∷ pos 478
    ∷ negsuc 107
    ∷ negsuc 307
    ∷ pos 996
    ∷ pos 991
    ∷ pos 958
    ∷ negsuc 1459
    ∷ pos 1522
    ∷ pos 1628
    ∷ []
