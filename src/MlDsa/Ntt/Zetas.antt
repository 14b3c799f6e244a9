-- ===== src/MlDsa/Ntt/Zetas.antt =====
-- The table of roots of unity of tools/pqc/mldsa/mldsa_ntt.c.
use karudeb.Base.{ℤ, pos, negsuc, List, [], ◌∷◌}

abbrev pub zetas : List ℤ
zetas =
    pos 0
    ∷ pos 25847
    ∷ negsuc 2608893
    ∷ negsuc 518908
    ∷ pos 237124
    ∷ negsuc 777959
    ∷ negsuc 876247
    ∷ pos 466468
    ∷ pos 1826347
    ∷ pos 2353451
    ∷ negsuc 359250
    ∷ negsuc 2091904
    ∷ pos 3119733
    ∷ negsuc 2884854
    ∷ pos 3111497
    ∷ pos 2680103
    ∷ pos 2725464
    ∷ pos 1024112
    ∷ negsuc 1079899
    ∷ pos 3585928
    ∷ negsuc 549487
    ∷ negsuc 1119583
    ∷ pos 2619752
    ∷ negsuc 2108548
    ∷ negsuc 2118185
    ∷ negsuc 3859736
    ∷ negsuc 1399560
    ∷ negsuc 3277671
    ∷ pos 1757237
    ∷ negsuc 19421
    ∷ pos 4010497
    ∷ pos 280005
    ∷ pos 2706023
    ∷ pos 95776
    ∷ pos 3077325
    ∷ pos 3530437
    ∷ negsuc 1661692
    ∷ negsuc 3592147
    ∷ negsuc 2537515
    ∷ pos 3915439
    ∷ negsuc 3861114
    ∷ negsuc 3043715
    ∷ pos 3574422
    ∷ negsuc 2867646
    ∷ pos 3539968
    ∷ negsuc 300466
    ∷ pos 2348700
    ∷ negsuc 539298
    ∷ negsuc 1699266
    ∷ negsuc 1643817
    ∷ pos 3505694
    ∷ negsuc 3821734
    ∷ pos 3507263
    ∷ negsuc 2140648
    ∷ negsuc 1600419
    ∷ pos 3699596
    ∷ pos 811944
    ∷ pos 531354
    ∷ pos 954230
    ∷ pos 3881043
    ∷ pos 3900724
    ∷ negsuc 2556879
    ∷ pos 2071892
    ∷ negsuc 2797778
    ∷ negsuc 3930394
    ∷ negsuc 1528702
    ∷ negsuc 3677744
    ∷ negsuc 3041254
    ∷ negsuc 1452450
    ∷ pos 3475950
    ∷ pos 2176455
    ∷ negsuc 1585220
    ∷ negsuc 1257610
    ∷ pos 1939314
    ∷ negsuc 4083597
    ∷ negsuc 1000201
    ∷ negsuc 3190143
    ∷ negsuc 3157329
    ∷ negsuc 3632927
    ∷ pos 126922
    ∷ pos 3412210
    ∷ negsuc 983418
    ∷ pos 2147896
    ∷ pos 2715295
    ∷ negsuc 2967644
    ∷ negsuc 3693492
    ∷ negsuc 411026
    ∷ negsuc 2477046
    ∷ negsuc 671101
    ∷ negsuc 1228524
    ∷ negsuc 22980
    ∷ negsuc 1308168
    ∷ negsuc 381986
    ∷ pos 1349076
    ∷ pos 1852771
    ∷ negsuc 1430429
    ∷ negsuc 3343382
    ∷ pos 264944
    ∷ pos 508951
    ∷ pos 3097992
    ∷ pos 44288
    ∷ negsuc 1100097
    ∷ pos 904516
    ∷ pos 3958618
    ∷ negsuc 3724341
    ∷ negsuc 8577
    ∷ pos 1653064
    ∷ negsuc 3249727
    ∷ pos 2389356
    ∷ negsuc 210976
    ∷ pos 759969
    ∷ negsuc 1316855
    ∷ pos 189548
    ∷ negsuc 3553271
    ∷ pos 3159746
    ∷ negsuc 1851401
    ∷ negsuc 2409324
    ∷ negsuc 177439
    ∷ pos 1315589
    ∷ pos 1341330
    ∷ pos 1285669
    ∷ negsuc 1584927
    ∷ negsuc 812731
    ∷ negsuc 1439741
    ∷ negsuc 3019101
    ∷ negsuc 3881059
    ∷ negsuc 3628968
    ∷ pos 3839961
    ∷ pos 2091667
    ∷ pos 3407706
    ∷ pos 2316500
    ∷ pos 3817976
    ∷ negsuc 3342477
    ∷ pos 2244091
    ∷ negsuc 2446432
    ∷ negsuc 3562461
    ∷ pos 266997
    ∷ pos 2434439
    ∷ negsuc 1235727
    ∷ pos 3513181
    ∷ negsuc 3520351
    ∷ negsuc 3759363
    ∷ negsuc 1197225
    ∷ negsuc 3193377
    ∷ pos 900702
    ∷ pos 1859098
    ∷ pos 909542
    ∷ pos 819034
    ∷ pos 495491
    ∷ negsuc 1613173
    ∷ negsuc 43259
    ∷ negsuc 522499
    ∷ negsuc 655326
    ∷ negsuc 3122441
    ∷ pos 2031748
    ∷ pos 3207046
    ∷ negsuc 3556994
    ∷ negsuc 525097
    ∷ negsuc 768621
    ∷ negsuc 3595837
    ∷ pos 342297
    ∷ pos 286988
    ∷ negsuc 2437822
    ∷ pos 4108315
    ∷ pos 3437287
    ∷ negsuc 3342276
    ∷ pos 1735879
    ∷ pos 203044
    ∷ pos 2842341
    ∷ pos 2691481
    ∷ negsuc 2590149
    ∷ pos 1265009
    ∷ pos 4055324
    ∷ pos 1247620
    ∷ pos 2486353
    ∷ pos 1595974
    ∷ negsuc 3767015
    ∷ pos 1250494
    ∷ pos 2635921
    ∷ negsuc 3548271
    ∷ negsuc 2994038
    ∷ pos 1869119
    ∷ pos 1903435
    ∷ negsuc 1050969
    ∷ negsuc 1333057
    ∷ pos 1237275
    ∷ negsuc 3318209
    ∷ negsuc 1430224
    ∷ negsuc 451099
    ∷ pos 1312455
    ∷ pos 3306115
    ∷ negsuc 1962641
    ∷ negsuc 1279660
    ∷ pos 1917081
    ∷ negsuc 2546311
    ∷ negsuc 1374802
    ∷ pos 1500165
    ∷ pos 777191
    ∷ pos 2235880
    ∷ pos 3406031
    ∷ negsuc 542411
    ∷ negsuc 2831859
    ∷ negsuc 1671175
    ∷ negsuc 1846952
    ∷ negsuc 2584292
    ∷ negsuc 3724269
    ∷ pos 594136
    ∷ negsuc 3776992
    ∷ negsuc 2013607
    ∷ pos 2432395
    ∷ pos 2454455
    ∷ negsuc 164720
    ∷ pos 1957272
    ∷ pos 3369112
    ∷ pos 185531
    ∷ negsuc 1207384
    ∷ negsuc 3183425
    ∷ pos 162844
    ∷ pos 1616392
    ∷ pos 3014001
    ∷ pos 810149
    ∷ pos 1652634
    ∷ negsuc 3694232
    ∷ negsuc 1799106
    ∷ negsuc 3038915
    ∷ pos 3523897
    ∷ pos 3866901
    ∷ pos 269760
    ∷ pos 2213111
    ∷ negsuc 975883
    ∷ pos 1717735
    ∷ pos 472078
    ∷ negsuc 426682
    ∷ pos 1723600
    ∷ negsuc 1803089
    ∷ pos 1910376
    ∷ negsuc 1667431
    ∷ negsuc 1104332
    ∷ negsuc 260645
    ∷ negsuc 3833892
    ∷ negsuc 2939035
    ∷ negsuc 2235984
    ∷ negsuc 420898
    ∷ negsuc 2286326
    ∷ pos 183443
    ∷ negsuc 976890
    ∷ pos 1612842
    ∷ negsuc 3545686
    ∷ negsuc 554415
    ∷ pos 3919660
    ∷ negsuc 48305
    ∷ negsuc 1362208
    ∷ pos 3937738
    ∷ pos 1400424
    ∷ negsuc 846153
    ∷ pos 1976782
    ∷ []
