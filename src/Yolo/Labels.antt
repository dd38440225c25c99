-- ===== src/Yolo/Labels.antt =====
-- gst/nvmminfer/yolo_parser.cpp: the names of the classes.
use gst_nvmm_cpp.Common.{ℕ, List, [], ◌∷◌, get_or, length, ltb, if◌then◌else◌}
use gst_nvmm_cpp.Common.Int.{ℤ, pos, negsuc}
use gst_nvmm_cpp.Common.Text.{codes}

abbrev pub coco80 : List (List ℕ)
coco80 =
    codes "person"
    ∷ codes "bicycle"
    ∷ codes "car"
    ∷ codes "motorcycle"
    ∷ codes "airplane"
    ∷ codes "bus"
    ∷ codes "train"
    ∷ codes "truck"
    ∷ codes "boat"
    ∷ codes "traffic light"
    ∷ codes "fire hydrant"
    ∷ codes "stop sign"
    ∷ codes "parking meter"
    ∷ codes "bench"
    ∷ codes "bird"
    ∷ codes "cat"
    ∷ codes "dog"
    ∷ codes "horse"
    ∷ codes "sheep"
    ∷ codes "cow"
    ∷ codes "elephant"
    ∷ codes "bear"
    ∷ codes "zebra"
    ∷ codes "giraffe"
    ∷ codes "backpack"
    ∷ codes "umbrella"
    ∷ codes "handbag"
    ∷ codes "tie"
    ∷ codes "suitcase"
    ∷ codes "frisbee"
    ∷ codes "skis"
    ∷ codes "snowboard"
    ∷ codes "sports ball"
    ∷ codes "kite"
    ∷ codes "baseball bat"
    ∷ codes "baseball glove"
    ∷ codes "skateboard"
    ∷ codes "surfboard"
    ∷ codes "tennis racket"
    ∷ codes "bottle"
    ∷ codes "wine glass"
    ∷ codes "cup"
    ∷ codes "fork"
    ∷ codes "knife"
    ∷ codes "spoon"
    ∷ codes "bowl"
    ∷ codes "banana"
    ∷ codes "apple"
    ∷ codes "sandwich"
    ∷ codes "orange"
    ∷ codes "broccoli"
    ∷ codes "carrot"
    ∷ codes "hot dog"
    ∷ codes "pizza"
    ∷ codes "donut"
    ∷ codes "cake"
    ∷ codes "chair"
    ∷ codes "couch"
    ∷ codes "potted plant"
    ∷ codes "bed"
    ∷ codes "dining table"
    ∷ codes "toilet"
    ∷ codes "tv"
    ∷ codes "laptop"
    ∷ codes "mouse"
    ∷ codes "remote"
    ∷ codes "keyboard"
    ∷ codes "cell phone"
    ∷ codes "microwave"
    ∷ codes "oven"
    ∷ codes "toaster"
    ∷ codes "sink"
    ∷ codes "refrigerator"
    ∷ codes "book"
    ∷ codes "clock"
    ∷ codes "vase"
    ∷ codes "scissors"
    ∷ codes "teddy bear"
    ∷ codes "hair drier"
    ∷ codes "toothbrush"
    ∷ []

abbrev pub coco_count : ℕ
coco_count = length coco80

-- coco_label
unfoldable pub coco_label : ℤ → List ℕ
coco_label (pos id) = if ltb id coco_count then get_or coco80 id [] else []
coco_label (negsuc id) = []
