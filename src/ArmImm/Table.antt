-- ===== src/ArmImm/Table.antt =====
-- source/armimm.c, `vfpimm_table`: the doubles, counted in 128ths, which all of them are whole
-- numbers of. Each row holds the sixteen entries of one value of `a` and `bcd`.
use amed.Base.{List, [], ◌∷◌, ◌++◌}
use amed.Base.Int.{ℤ, pos, negsuc}

abbrev row0 : List ℤ
row0 =
    pos 256
    ∷ pos 272
    ∷ pos 288
    ∷ pos 304
    ∷ pos 320
    ∷ pos 336
    ∷ pos 352
    ∷ pos 368
    ∷ pos 384
    ∷ pos 400
    ∷ pos 416
    ∷ pos 432
    ∷ pos 448
    ∷ pos 464
    ∷ pos 480
    ∷ pos 496
    ∷ []

abbrev row1 : List ℤ
row1 =
    pos 512
    ∷ pos 544
    ∷ pos 576
    ∷ pos 608
    ∷ pos 640
    ∷ pos 672
    ∷ pos 704
    ∷ pos 736
    ∷ pos 768
    ∷ pos 800
    ∷ pos 832
    ∷ pos 864
    ∷ pos 896
    ∷ pos 928
    ∷ pos 960
    ∷ pos 992
    ∷ []

abbrev row2 : List ℤ
row2 =
    pos 1024
    ∷ pos 1088
    ∷ pos 1152
    ∷ pos 1216
    ∷ pos 1280
    ∷ pos 1344
    ∷ pos 1408
    ∷ pos 1472
    ∷ pos 1536
    ∷ pos 1600
    ∷ pos 1664
    ∷ pos 1728
    ∷ pos 1792
    ∷ pos 1856
    ∷ pos 1920
    ∷ pos 1984
    ∷ []

abbrev row3 : List ℤ
row3 =
    pos 2048
    ∷ pos 2176
    ∷ pos 2304
    ∷ pos 2432
    ∷ pos 2560
    ∷ pos 2688
    ∷ pos 2816
    ∷ pos 2944
    ∷ pos 3072
    ∷ pos 3200
    ∷ pos 3328
    ∷ pos 3456
    ∷ pos 3584
    ∷ pos 3712
    ∷ pos 3840
    ∷ pos 3968
    ∷ []

abbrev row4 : List ℤ
row4 =
    pos 16
    ∷ pos 17
    ∷ pos 18
    ∷ pos 19
    ∷ pos 20
    ∷ pos 21
    ∷ pos 22
    ∷ pos 23
    ∷ pos 24
    ∷ pos 25
    ∷ pos 26
    ∷ pos 27
    ∷ pos 28
    ∷ pos 29
    ∷ pos 30
    ∷ pos 31
    ∷ []

abbrev row5 : List ℤ
row5 =
    pos 32
    ∷ pos 34
    ∷ pos 36
    ∷ pos 38
    ∷ pos 40
    ∷ pos 42
    ∷ pos 44
    ∷ pos 46
    ∷ pos 48
    ∷ pos 50
    ∷ pos 52
    ∷ pos 54
    ∷ pos 56
    ∷ pos 58
    ∷ pos 60
    ∷ pos 62
    ∷ []

abbrev row6 : List ℤ
row6 =
    pos 64
    ∷ pos 68
    ∷ pos 72
    ∷ pos 76
    ∷ pos 80
    ∷ pos 84
    ∷ pos 88
    ∷ pos 92
    ∷ pos 96
    ∷ pos 100
    ∷ pos 104
    ∷ pos 108
    ∷ pos 112
    ∷ pos 116
    ∷ pos 120
    ∷ pos 124
    ∷ []

abbrev row7 : List ℤ
row7 =
    pos 128
    ∷ pos 136
    ∷ pos 144
    ∷ pos 152
    ∷ pos 160
    ∷ pos 168
    ∷ pos 176
    ∷ pos 184
    ∷ pos 192
    ∷ pos 200
    ∷ pos 208
    ∷ pos 216
    ∷ pos 224
    ∷ pos 232
    ∷ pos 240
    ∷ pos 248
    ∷ []

abbrev row8 : List ℤ
row8 =
    negsuc 255
    ∷ negsuc 271
    ∷ negsuc 287
    ∷ negsuc 303
    ∷ negsuc 319
    ∷ negsuc 335
    ∷ negsuc 351
    ∷ negsuc 367
    ∷ negsuc 383
    ∷ negsuc 399
    ∷ negsuc 415
    ∷ negsuc 431
    ∷ negsuc 447
    ∷ negsuc 463
    ∷ negsuc 479
    ∷ negsuc 495
    ∷ []

abbrev row9 : List ℤ
row9 =
    negsuc 511
    ∷ negsuc 543
    ∷ negsuc 575
    ∷ negsuc 607
    ∷ negsuc 639
    ∷ negsuc 671
    ∷ negsuc 703
    ∷ negsuc 735
    ∷ negsuc 767
    ∷ negsuc 799
    ∷ negsuc 831
    ∷ negsuc 863
    ∷ negsuc 895
    ∷ negsuc 927
    ∷ negsuc 959
    ∷ negsuc 991
    ∷ []

abbrev row10 : List ℤ
row10 =
    negsuc 1023
    ∷ negsuc 1087
    ∷ negsuc 1151
    ∷ negsuc 1215
    ∷ negsuc 1279
    ∷ negsuc 1343
    ∷ negsuc 1407
    ∷ negsuc 1471
    ∷ negsuc 1535
    ∷ negsuc 1599
    ∷ negsuc 1663
    ∷ negsuc 1727
    ∷ negsuc 1791
    ∷ negsuc 1855
    ∷ negsuc 1919
    ∷ negsuc 1983
    ∷ []

abbrev row11 : List ℤ
row11 =
    negsuc 2047
    ∷ negsuc 2175
    ∷ negsuc 2303
    ∷ negsuc 2431
    ∷ negsuc 2559
    ∷ negsuc 2687
    ∷ negsuc 2815
    ∷ negsuc 2943
    ∷ negsuc 3071
    ∷ negsuc 3199
    ∷ negsuc 3327
    ∷ negsuc 3455
    ∷ negsuc 3583
    ∷ negsuc 3711
    ∷ negsuc 3839
    ∷ negsuc 3967
    ∷ []

abbrev row12 : List ℤ
row12 =
    negsuc 15
    ∷ negsuc 16
    ∷ negsuc 17
    ∷ negsuc 18
    ∷ negsuc 19
    ∷ negsuc 20
    ∷ negsuc 21
    ∷ negsuc 22
    ∷ negsuc 23
    ∷ negsuc 24
    ∷ negsuc 25
    ∷ negsuc 26
    ∷ negsuc 27
    ∷ negsuc 28
    ∷ negsuc 29
    ∷ negsuc 30
    ∷ []

abbrev row13 : List ℤ
row13 =
    negsuc 31
    ∷ negsuc 33
    ∷ negsuc 35
    ∷ negsuc 37
    ∷ negsuc 39
    ∷ negsuc 41
    ∷ negsuc 43
    ∷ negsuc 45
    ∷ negsuc 47
    ∷ negsuc 49
    ∷ negsuc 51
    ∷ negsuc 53
    ∷ negsuc 55
    ∷ negsuc 57
    ∷ negsuc 59
    ∷ negsuc 61
    ∷ []

abbrev row14 : List ℤ
row14 =
    negsuc 63
    ∷ negsuc 67
    ∷ negsuc 71
    ∷ negsuc 75
    ∷ negsuc 79
    ∷ negsuc 83
    ∷ negsuc 87
    ∷ negsuc 91
    ∷ negsuc 95
    ∷ negsuc 99
    ∷ negsuc 103
    ∷ negsuc 107
    ∷ negsuc 111
    ∷ negsuc 115
    ∷ negsuc 119
    ∷ negsuc 123
    ∷ []

abbrev row15 : List ℤ
row15 =
    negsuc 127
    ∷ negsuc 135
    ∷ negsuc 143
    ∷ negsuc 151
    ∷ negsuc 159
    ∷ negsuc 167
    ∷ negsuc 175
    ∷ negsuc 183
    ∷ negsuc 191
    ∷ negsuc 199
    ∷ negsuc 207
    ∷ negsuc 215
    ∷ negsuc 223
    ∷ negsuc 231
    ∷ negsuc 239
    ∷ negsuc 247
    ∷ []

unfoldable pub vfpimm_table : List ℤ
vfpimm_table =
    row0 ++ row1 ++ row2 ++ row3 ++ row4 ++ row5 ++ row6 ++ row7 ++ row8 ++ row9 ++ row10 ++ row11
    ++ row12 ++ row13 ++ row14 ++ row15
