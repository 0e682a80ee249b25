-- ===== src/Theme.antt =====
-- evaluation/src/site/resources/analysis/scripts/theme.js: the theme of all charts, and `extend`.
use shabdiz.Prelude.{ℕ, true, false, List, [], ◌∷◌, none, some, get_elem?}
use shabdiz.Prelude.Int.{ℤ, pos, negsuc}
use shabdiz.Text.{codes}
use shabdiz.Value.{
  Value, undefined, null, bool, num, str, fn, arr, obj, Fields, end, field, items, extend_theme,
  Host,
}

abbrev pub colours : List Value
colours =
    str (codes "#3366cc")
    ∷ str (codes "#dc3912")
    ∷ str (codes "#ff9900")
    ∷ str (codes "#109618")
    ∷ str (codes "#990099")
    ∷ str (codes "#0099c6")
    ∷ str (codes "#dd4477")
    ∷ str (codes "#66aa00")
    ∷ str (codes "#b82e2e")
    ∷ str (codes "#316395")
    ∷ str (codes "#994499")
    ∷ str (codes "#22aa99")
    ∷ str (codes "#aaaa11")
    ∷ str (codes "#6633cc")
    ∷ str (codes "#e67300")
    ∷ str (codes "#8b0707")
    ∷ str (codes "#651067")
    ∷ str (codes "#329262")
    ∷ str (codes "#5574a6")
    ∷ str (codes "#3b3eac")
    ∷ str (codes "#b77322")
    ∷ str (codes "#16d620")
    ∷ str (codes "#b91383")
    ∷ str (codes "#f4359e")
    ∷ str (codes "#9c5935")
    ∷ str (codes "#a9c413")
    ∷ str (codes "#2a778d")
    ∷ str (codes "#668d1c")
    ∷ str (codes "#bea413")
    ∷ str (codes "#0c5922")
    ∷ str (codes "#743411")
    ∷ []

-- `theme.colours[index]`.
abbrev pub colour : ℕ → Value
colour index = elim (get_elem? colours index) [ none ↦ undefined | some c ↦ c ]

-- The style of labels and titles of the axes.
abbrev axis_style : Fields
axis_style = field (codes "color") (str (codes "black")) (
    field (codes "fontWeight") (str (codes "normal"))
      (field (codes "fontSize") (str (codes "10pt")) end))

module _ {A : Type 0} (h : Host A) where
  abbrev int : ℤ → Value
  int z = num (h.decimal z 0)

  abbrev chart : Fields
  chart = field (codes "type") (str (codes "line")) (
      field (codes "zoomType") (str (codes "xy")) (
        field (codes "onePerMatch") (bool false) (
          field (codes "plotBorderWidth") (int (pos 1))
            (field (codes "plotBorderColor") (str (codes "black")) end))))

  abbrev exporting : Fields
  exporting =
      field (codes "chartOptions")
        (obj (
          field (codes "title") (obj (field (codes "text") null end)) (
            field (codes "chart")
              (obj (
                field (codes "style")
                  (obj (
                    field (codes "fontSize") (str (codes "10pt")) (
                      field (codes "fontFamily")
                        (str (codes "\"Frutiger Light Condensed\", sans-serif")) end)))
                  end))
              end)))
        (field (codes "sourceWidth") (int (pos 500))
          (field (codes "sourceHeight") (int (pos 350)) end))

  abbrev legend : Fields
  legend =
      field (codes "itemStyle")
        (obj (
          field (codes "color") (str (codes "black")) (
            field (codes "fontWeight") (str (codes "normal"))
              (field (codes "fontSize") (str (codes "10pt")) end))))
        (field (codes "align") (str (codes "right")) (
          field (codes "verticalAlign") (str (codes "top")) (
            field (codes "layout") (str (codes "vertical")) (
              field (codes "backgroundColor") (str (codes "white")) (
                field (codes "borderWidth") (int (pos 1)) (
                  field (codes "floating") (bool true) (
                    field (codes "draggable") (bool true) (
                      field (codes "zIndex") (int (pos 20)) (
                        field (codes "x") (int (negsuc 19))
                          (field (codes "y") (int (pos 20)) end))))))))))

  abbrev plot_options : Fields
  plot_options =
      field (codes "line")
        (obj (field (codes "marker") (obj (field (codes "enabled") (bool false) end)) end))
        (field (codes "arearange") (obj (field (codes "showInLegend") (bool false) end)) (
          field (codes "series")
            (obj (
              field (codes "animation") (bool false)
                (field (codes "turboThreshold") (int (pos 100)) end)))
            end))

  abbrev tooltip : Fields
  tooltip =
      field (codes "headerFormat") (str (codes "<b>{series.name}</b><br>"))
        (field (codes "pointFormat") (str (codes "X: {point.x:.2f} , Y: {point.y:.2f}")) end)

  abbrev x_axis : Fields
  x_axis = field (codes "lineColor") (str (codes "black")) (
      field (codes "tickWidth") (int (pos 0)) (
        field (codes "title")
          (obj (
            field (codes "text") (str (codes "Time Through Experiment (Hours)"))
              (field (codes "style") (obj axis_style) end)))
          (field (codes "labels") (obj (field (codes "style") (obj axis_style) end))
            (field (codes "min") (int (pos 0)) end))))

  abbrev y_axis : Fields
  y_axis = field (codes "min") (int (pos 0)) (
      field (codes "title") (obj (field (codes "style") (obj axis_style) end))
        (field (codes "labels") (obj (field (codes "style") (obj axis_style) end)) end))

  abbrev pub theme_fields : Fields
  theme_fields = field (codes "colours") (arr (items colours)) (
      field (codes "chart") (obj chart) (
        field (codes "title") (obj (field (codes "text") null end)) (
          field (codes "exporting") (obj exporting) (
            field (codes "legend") (obj legend) (
              field (codes "plotOptions") (obj plot_options) (
                field (codes "tooltip") (obj tooltip) (
                  field (codes "xAxis") (obj x_axis) (
                    field (codes "yAxis") (obj y_axis) (
                      field (codes "series") (arr (items [])) (
                        field (codes "credits") (obj (field (codes "enabled") (bool false) end)) (
                          field (codes "convert")
                            (obj (field (codes "y") undefined (field (codes "x") undefined end)))
                            (field (codes "extend") (fn extend_theme) end))))))))))))

  -- The object that the module returns.
  abbrev pub theme : Value
  theme = obj theme_fields

  -- The method `extend` with its object.
  unfoldable pub extend : Value → Value → Value
  extend this child =
      let clone = h.deep_extend (h.deep_extend (obj end) this) this in h.deep_extend clone child
